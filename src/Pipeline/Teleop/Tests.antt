-- ===== src/Pipeline/Teleop/Tests.antt =====
-- The teleoperation chain in a concrete world.
use digital_twin_based_on_un.Common.{◌+◌, false, [], none}
use digital_twin_based_on_un.Common.Int.{ℤ}
use digital_twin_based_on_un.Common.Samples.{whole_floats}
use digital_twin_based_on_un.Jog.{codes}
use digital_twin_based_on_un.Conditioner.Traces.{command as receives}
use digital_twin_based_on_un.Servo.{command, Env, World}
use digital_twin_based_on_un.Servo.Home.{new_node}
use digital_twin_based_on_un.Pipeline.Samples.{config}

abbrev silent : Env ℤ
silent k = record {
  now = 100 + k;
  ready = false;
  delivered = [];
  controllers = none;
  switch_ok = none;
  success = none;
  reset_done = false;
  accepted = false;
}

-- The key w is held.
abbrev forward : World ℤ
forward = record {
  node = record (new_node config none none none) { held_keys = codes "w" };
  moment = 0;
  trace = [];
}

-- ===== src/Manager/Tests.antt =====
-- The manager with a concrete system, and an instance of each theorem.
use digital_twin_based_on_un.Common.{
  ℕ, ◌==◌, ◌≡◌, refl, Bool, true, false, List, [], ◌∷◌, none, some, if◌then◌else◌, elem, length,
}
use digital_twin_based_on_un.Common.Int.{pos}
use digital_twin_based_on_un.Manager.{
  ManagedProcess, Manager, System, spawn, term, kill, merge, monitor_permanent_nodes,
  start_permanent_nodes, for_each, start_process, is_running, shutdown_processes,
}
use digital_twin_based_on_un.Manager.Nodes.{Config, build_permanent_nodes, new_manager}
use digital_twin_based_on_un.Manager.Children.{World, started, exited}
use digital_twin_based_on_un.Manager.Main.{SpinEvent, child_exits, timer_due, spin, main}
use digital_twin_based_on_un.Manager.Respawn.{monitor_permanent_nodes_lem}
use digital_twin_based_on_un.Manager.Shutdown.{shutdown_processes_lem, shutdown_processes-outlived}

abbrev defaults : Config
defaults = record {
  ros_ip = "0.0.0.0";
  ros_tcp_port = "10000";
  respawn_permanent_nodes = true;
  robot_ip = "127.0.0.1";
  rtde_port = "30004";
  rtde_field = "actual_current_as_torque";
  joint_torque_publish_rate_hz = "20.0";
  joint_torques_topic = "/joint_torques";
}

-- The keys of the table are distinct, so a shutdown goes through it as it stands.
merge-build_permanent_nodes :
    merge [] (build_permanent_nodes defaults) ≡ build_permanent_nodes defaults
unfolding build_permanent_nodes
merge-build_permanent_nodes = refl

abbrev bridge : ManagedProcess
bridge = record { name = "bridge"; command = "run" ∷ "bridge" ∷ []; process = some 7 }

abbrev endpoint : ManagedProcess
endpoint = record { name = "endpoint"; command = "run" ∷ "endpoint" ∷ []; process = some 8 }

abbrev two_running : Manager
two_running = record {
  respawn_permanent_nodes = true;
  permanent_nodes = ("bridge", bridge) ∷ ("endpoint", endpoint) ∷ [];
  controlled_nodes = [];
  shutting_down = false;
}

-- Process 8 has crashed, or no process has.
abbrev crashed : System
crashed = record {
  poll = λ pid. if pid == 8 then some (pos 1) else none;
  popen = λ command. some 9;
  ends_on_term = λ pid. false;
  ends_on_kill = λ pid. true;
}

abbrev stubborn : System
stubborn = record crashed { poll = λ pid. none; ends_on_kill = λ pid. false }

monitor_permanent_nodes_lem_example :
    ((monitor_permanent_nodes crashed two_running).value.permanent_nodes
      ≡ ("bridge", bridge) ∷ ("endpoint", record endpoint { process = some 9 }) ∷ [])
    × ((monitor_permanent_nodes crashed two_running).calls ≡ spawn ("run" ∷ "endpoint" ∷ []) ∷ [])
    × ((monitor_permanent_nodes crashed two_running).raised ≡ false)
monitor_permanent_nodes_lem_example =
    monitor_permanent_nodes_lem crashed two_running (λ command. refl) refl

shutdown_processes_lem_example :
    ((shutdown_processes crashed two_running).calls ≡ term 7 ∷ kill 7 ∷ [])
    × ((shutdown_processes crashed two_running).raised ≡ false)
    × ((shutdown_processes crashed two_running).value.shutting_down ≡ true)
shutdown_processes_lem_example = shutdown_processes_lem crashed two_running (refl, (refl, tt))

shutdown_processes-outlived_example :
    ((shutdown_processes stubborn two_running).calls ≡ term 7 ∷ kill 7 ∷ [])
    × ((shutdown_processes stubborn two_running).raised ≡ true)
shutdown_processes-outlived_example =
    shutdown_processes-outlived stubborn two_running [] (("endpoint", endpoint) ∷ []) "bridge"
      bridge 7 refl tt refl refl refl refl

-- A system that answers truly about the children that are alive, whose children end on SIGKILL.
abbrev truthful : List ℕ → System
truthful alive = record {
  poll = λ pid. if elem pid alive then none else some (pos 0);
  popen = λ command. some (length command);
  ends_on_term = λ pid. false;
  ends_on_kill = λ pid. true;
}

-- The bridges have process 4, which exits, and the monitor starts them again.
abbrev one_exit : World
one_exit = exited 4 (started (truthful []) defaults)

abbrev events : List SpinEvent
events = child_exits 4 ∷ timer_due (truthful one_exit.alive) ∷ []

abbrev spun : World × Bool
spun = spin events (started (truthful []) defaults)

-- The second start raises an exception: the first child stays alive after `main`.
abbrev failing : System
failing = record (truthful []) { popen = λ command. if length command == 4 then some 4 else none }

main-start_raised :
    ((main false failing defaults [] failing).0.alive ≡ 4 ∷ [])
    × ((main false failing defaults [] failing).1 ≡ true)
unfolding main started start_permanent_nodes for_each start_process is_running new_manager
    build_permanent_nodes
main-start_raised = (refl, refl)

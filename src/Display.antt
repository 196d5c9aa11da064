-- ===== src/Display.antt =====
-- The display state machine: digital_twin_on_unity_and_ros2/digital_twin_on_unity_and_ros2/
-- command_bridges/display_twist_state.py under the repository's src/. Times are floats in seconds.
pub mod Windows
mod Tests
use digital_twin_based_on_un.Common.{Bool, true, false, not, if◌then◌else◌}
use digital_twin_based_on_un.Common.Floats.{Floats, fl_zero, fl_max}

pub data DisplayAction : Type 0 where
  none publish stop : DisplayAction

pub data Phase : Type 0 where
  idle priming active : Phase

pub record DisplayTwistState (F : Type 0) : Type 0 where
  pub initial_hold_s : F
  pub active_timeout_s : F
  pub phase : Phase
  pub first_nonzero_s : F
  pub last_nonzero_s : F

abbrev pub is_idle : Phase → Bool
is_idle idle = true
is_idle _ = false

module _ {F : Type 0} ⦃fl : Floats F⦄ where
  -- `__init__`
  unfoldable pub new : F → F → DisplayTwistState F
  new initial_hold_s active_timeout_s = record {
    initial_hold_s = fl_max initial_hold_s fl_zero;
    active_timeout_s = fl_max active_timeout_s fl_zero;
    phase = idle;
    first_nonzero_s = fl_zero;
    last_nonzero_s = fl_zero;
  }

  -- The body of `_has_expired` for each phase.
  expired_in : Phase → DisplayTwistState F → F → Bool
  expired_in idle s now_s = false
  expired_in priming s now_s = fl.lt s.initial_hold_s (fl.sub now_s s.first_nonzero_s)
  expired_in active s now_s = fl.lt s.active_timeout_s (fl.sub now_s s.last_nonzero_s)

  unfoldable pub has_expired : DisplayTwistState F → F → Bool
  unfolding expired_in
  has_expired s now_s = expired_in s.phase s now_s

  unfoldable pub reset : DisplayTwistState F → DisplayTwistState F
  reset s = record s { phase = idle; first_nonzero_s = fl_zero; last_nonzero_s = fl_zero }

  unfoldable pub displaying : DisplayTwistState F → Bool
  displaying s = not (is_idle s.phase)

  -- The phase change of `observe_nonzero`, after an expired window has been reset.
  advance : Phase → DisplayTwistState F → F → DisplayTwistState F
  advance idle s now_s = record s { phase = priming; first_nonzero_s = now_s }
  advance priming s now_s = record s { phase = active }
  advance active s now_s = s

  unfoldable pub observe_nonzero : DisplayTwistState F → F → DisplayTwistState F
  unfolding has_expired reset advance
  observe_nonzero s now_s =
      let s' = if has_expired s now_s then reset s else s in
      record (advance s'.phase s' now_s) { last_nonzero_s = now_s }

  -- The new state, and whether a visible command was cleared.
  unfoldable pub force_stop : DisplayTwistState F → DisplayTwistState F × Bool
  unfolding displaying reset
  force_stop s = (reset s, displaying s)

  unfoldable pub tick : DisplayTwistState F → F → DisplayTwistState F × DisplayAction
  unfolding has_expired reset
  tick s now_s =
      if is_idle s.phase
      then (s, none)
      else if has_expired s now_s
      then (reset s, stop)
      else (s, publish)

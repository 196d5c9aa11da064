-- ===== src/Bridges/Retained.antt =====
-- The robot info bridge over a sequence of callbacks: its calls, and what it shows.
use Prim.Native.String.{String}
use digital_twin_based_on_un.Common.{
  ℕ, ◌+◌, ◌≤◌, ◌≡◌, refl, Bool, List, [], ◌∷◌, Option, none, some, if◌then◌else◌, arith,
}
use digital_twin_based_on_un.Bridges.Polls.{
  RobotInfoBridge, refresh_version, refresh_program, refresh_state, publish_current, tick_info,
  or_text, version_done, program_done, state_done, new_info,
}

-- A callback of the robot info bridge: the timer with the clock and the services that are ready,
-- or an answer, absent when the call failed.
pub data Event : Type 0 where
  timer : ℕ → Bool → Bool → Bool → Event
  version : Option String → Event
  program : Option String → Event
  state : Option String → Event

unfoldable pub step : Event → RobotInfoBridge → RobotInfoBridge
step (timer now v p s) b = (tick_info now v p s b).bridge
step (version answer) b = version_done answer b
step (program answer) b = program_done answer b
step (state answer) b = state_done answer b

unfoldable pub run : List Event → RobotInfoBridge → RobotInfoBridge
run [] b = b
run (e ∷ es) b = run es (step e b)

-- The calls of the three services that a callback makes, and the answers that it is.
abbrev pub calls_of : Event → RobotInfoBridge → ℕ × ℕ × ℕ
calls_of (timer now v p s) b =
    let t = tick_info now v p s b in
    (
      (if t.version_called then 1 else 0),
      (if t.program_called then 1 else 0),
      (if t.state_called then 1 else 0),
    )
calls_of (version answer) b = (0, 0, 0)
calls_of (program answer) b = (0, 0, 0)
calls_of (state answer) b = (0, 0, 0)

abbrev pub answers_of : Event → ℕ × ℕ × ℕ
answers_of (timer now v p s) = (0, 0, 0)
answers_of (version answer) = (1, 0, 0)
answers_of (program answer) = (0, 1, 0)
answers_of (state answer) = (0, 0, 1)

unfoldable pub calls : List Event → RobotInfoBridge → ℕ × ℕ × ℕ
calls [] b = (0, 0, 0)
calls (e ∷ es) b =
    let (v, p, s) = calls_of e b in
    let (vs, ps, ss) = calls es (step e b) in (v + vs, p + ps, s + ss)

unfoldable pub answers : List Event → ℕ × ℕ × ℕ
answers [] = (0, 0, 0)
answers (e ∷ es) =
    let (v, p, s) = answers_of e in let (vs, ps, ss) = answers es in (v + vs, p + ps, s + ss)

abbrev pub free : Bool → ℕ
free pending = if pending then 0 else 1

-- One callback makes a call only from a free flag, which it then holds.
record Guarded (e : Event) (b : RobotInfoBridge) : Type 0 where
  version :
      (calls_of e b).0 + free (step e b).version_pending ≤ (answers_of e).0 + free b.version_pending
  program :
      (calls_of e b).1 + free (step e b).program_pending ≤ (answers_of e).1 + free b.program_pending
  state : (calls_of e b).2 + free (step e b).state_pending ≤ (answers_of e).2 + free b.state_pending

step-Guarded : (e : Event) (b : RobotInfoBridge) → Guarded e b
unfolding step tick_info refresh_version refresh_program refresh_state version_done program_done
    state_done
step-Guarded (timer now v p s) b = ground arith
step-Guarded (version none) b = ground arith
step-Guarded (version (some answer)) b = ground arith
step-Guarded (program none) b = ground arith
step-Guarded (program (some answer)) b = ground arith
step-Guarded (state none) b = ground arith
step-Guarded (state (some answer)) b = ground arith

-- Over any sequence of callbacks, whether calls succeed or fail, each of the three services is
-- called no more often than it answers, and once more if no call of it was pending at the start.
calls-le :
    (es : List Event) (b : RobotInfoBridge)
    → ((calls es b).0 ≤ (answers es).0 + free b.version_pending)
      × ((calls es b).1 ≤ (answers es).1 + free b.program_pending)
      × ((calls es b).2 ≤ (answers es).2 + free b.state_pending)
unfolding calls answers
calls-le [] b = (omega arith, omega arith, omega arith)
calls-le (e ∷ es) b =
    let g = step-Guarded e b in
    let (v, p, s) = calls-le es (step e b) in
    (omega (arith, g.version, v), omega (arith, g.program, p), omega (arith, g.state, s))

-- The last good answer of a service, as it is shown, after `shown`.
abbrev pub last_version : String → List Event → String
last_version shown [] = shown
last_version shown (version (some answer) ∷ es) = last_version answer es
last_version shown (version none ∷ es) = last_version shown es
last_version shown (timer now v p s ∷ es) = last_version shown es
last_version shown (program answer ∷ es) = last_version shown es
last_version shown (state answer ∷ es) = last_version shown es

abbrev pub last_program : String → List Event → String
last_program shown [] = shown
last_program shown (program (some answer) ∷ es) = last_program (or_text answer "NONE") es
last_program shown (program none ∷ es) = last_program shown es
last_program shown (timer now v p s ∷ es) = last_program shown es
last_program shown (version answer ∷ es) = last_program shown es
last_program shown (state answer ∷ es) = last_program shown es

abbrev pub last_state : String → List Event → String
last_state shown [] = shown
last_state shown (state (some answer) ∷ es) = last_state (or_text answer "UNKNOWN") es
last_state shown (state none ∷ es) = last_state shown es
last_state shown (timer now v p s ∷ es) = last_state shown es
last_state shown (version answer ∷ es) = last_state shown es
last_state shown (program answer ∷ es) = last_state shown es

pub record Retains (v p s : String) (b : RobotInfoBridge) : Type 0 where
  software_version : b.software_version ≡ v
  loaded_program : b.loaded_program ≡ p
  program_state : b.program_state ≡ s

run-Retains :
    (es : List Event) (v p s : String) (b : RobotInfoBridge)
    → Retains v p s b
    → Retains (last_version v es) (last_program p es) (last_state s es) (run es b)
unfolding run step tick_info refresh_version refresh_program refresh_state version_done program_done
    state_done
run-Retains [] v p s b h = h
run-Retains (timer now x y z ∷ es) v p s b h =
    run-Retains es v p s (step (timer now x y z) b) (ground arith)
run-Retains (version none ∷ es) v p s b h =
    run-Retains es v p s (step (version none) b) (ground arith)
run-Retains (version (some answer) ∷ es) v p s b h =
    run-Retains es answer p s (step (version (some answer)) b) (ground arith)
run-Retains (program none ∷ es) v p s b h =
    run-Retains es v p s (step (program none) b) (ground arith)
run-Retains (program (some answer) ∷ es) v p s b h =
    run-Retains es v (or_text answer "NONE") s (step (program (some answer)) b) (ground arith)
run-Retains (state none ∷ es) v p s b h = run-Retains es v p s (step (state none) b) (ground arith)
run-Retains (state (some answer) ∷ es) v p s b h =
    run-Retains es v p (or_text answer "UNKNOWN") (step (state (some answer)) b) (ground arith)

-- After any sequence of callbacks of a new bridge, the next tick publishes the last good answer of
-- each service, whatever failed since, and UNKNOWN before the first; an empty program name is
-- shown as NONE, and an empty program state as UNKNOWN.
pub tick_info-run :
    (es : List Event) (now : ℕ) (v p s : Bool)
    → let shown = (tick_info now v p s (run es new_info)).published in
      (shown.software_version ≡ last_version "UNKNOWN" es)
      × (shown.loaded_program ≡ last_program "UNKNOWN" es)
      × (shown.program_state ≡ last_state "UNKNOWN" es)
unfolding tick_info publish_current
tick_info-run es now v p s =
    let h = run-Retains es "UNKNOWN" "UNKNOWN" "UNKNOWN" new_info (
      unfold new_info in
      record { software_version = refl; loaded_program = refl; program_state = refl }) in
    (h.software_version, h.loaded_program, h.program_state)

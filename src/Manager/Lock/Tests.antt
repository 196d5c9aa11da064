-- ===== src/Manager/Lock/Tests.antt =====
-- Two managers that start at the same time.
use digital_twin_based_on_un.Common.{◌==◌, ◌≡◌, refl, List, [], ◌∷◌, ◌++◌, some}
use digital_twin_based_on_un.Manager.Lock.{
  absent, acquired, Event, goes_on, ends, flock, next_call, close, step, run, booted, is_acquired,
  run-acquired,
}

-- Both open the file, 7 gets the lock, 8 is refused.
abbrev race : List Event
race = goes_on 7 ∷ goes_on 8 ∷ goes_on 7 ∷ goes_on 8 ∷ goes_on 7 ∷ goes_on 7 ∷ []

-- 8 tries again, 7 spins, and a third one opens the file and is ended.
abbrev later : List Event
later = goes_on 8 ∷ goes_on 8 ∷ goes_on 7 ∷ goes_on 9 ∷ ends 9 ∷ []

race-phases :
    ((run (booted (some 3)) race).phase 7 ≡ acquired)
    × ((run (booted (some 3)) race).phase 8 ≡ absent)
unfolding run step next_call flock
race-phases = (refl, refl)

-- The lock passes on: 7 ends, and 8 acquires it.
handover :
    (run
        (booted (some 3))
        (race ++ ends 7 ∷ goes_on 8 ∷ goes_on 8 ∷ goes_on 8 ∷ goes_on 8 ∷ [])).phase
      8
    ≡ acquired
unfolding run step next_call flock close
handover = refl

run-acquired_example :
    let m = run (booted (some 3)) (race ++ later) in
    (m.holder ≡ some 7) × (is_acquired (m.phase 8) ≡ (8 == 7)) × (m.content ≡ some 7)
run-acquired_example =
    run-acquired (some 3) race later 7 8 race-phases.0 (tt, (tt, (tt, (tt, (refl, tt)))))

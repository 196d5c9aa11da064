-- ===== src/Bridges/TestsState.antt =====
-- The state and polling bridges over concrete callbacks, and an instance of each theorem.
use digital_twin_based_on_un.Common.{◌≡◌, true, false, List, [], ◌∷◌, none, some}
use digital_twin_based_on_un.Common.Int.{ℤ, pos}
use digital_twin_based_on_un.Common.Samples.{whole_floats}
use digital_twin_based_on_un.Bridges.Status.{mode_code, program_running}
use digital_twin_based_on_un.Bridges.Latest
use digital_twin_based_on_un.Bridges.Polls.{tick_info, new_info}
use digital_twin_based_on_un.Bridges.Retained

abbrev booted : List (Latest.Event ℤ)
booted =
    Latest.status_timer 10
    ∷ Latest.input (mode_code (pos 7))
    ∷ Latest.input (program_running true)
    ∷ Latest.status_timer 20
    ∷ []

-- The first call of the program service fails, the second answers.
abbrev polled : List Retained.Event
polled =
    Retained.timer 10 false true false
    ∷ Retained.timer 20 false true false
    ∷ Retained.program none
    ∷ Retained.timer 30 false true false
    ∷ Retained.program (some "")
    ∷ []

tick_info-run_example :
    let shown = (tick_info 40 false true false (Retained.run polled new_info)).published in
    (shown.software_version ≡ "UNKNOWN")
    × (shown.loaded_program ≡ "NONE")
    × (shown.program_state ≡ "UNKNOWN")
tick_info-run_example = Retained.tick_info-run polled 40 false true false

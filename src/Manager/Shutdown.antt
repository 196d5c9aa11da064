-- ===== src/Manager/Shutdown.antt =====
-- What a shutdown stops.
use Prim.Native.String.{String}
use mathlib.Core.List.{append_assoc, append-nil}
use digital_twin_based_on_un.Common.{
  ℕ, ◌≡◌, refl, ap, ap₂, sym, ◌∙◌, true, false, ◌||◌, List, [], ◌∷◌, ◌++◌, Option, none, some,
  is_some, if◌then◌else◌, arith,
}
use digital_twin_based_on_un.Manager.{
  ManagedProcess, Manager, System, Call, term, kill, stop_process, stop_running, for_each, merge,
  shutdown_processes,
}

-- What stopping a process should take: SIGTERM to one that runs, and SIGKILL to one that does not
-- end on it.
abbrev pub stop_calls : System → Option ℕ → List Call
stop_calls os none = []
stop_calls os (some pid) =
    if is_some (os.poll pid)
    then []
    else term pid ∷ (if os.ends_on_term pid then [] else kill pid ∷ [])

abbrev pub all_stop_calls : System → List (String × ManagedProcess) → List Call
all_stop_calls os [] = []
all_stop_calls os ((key, p) ∷ ps) = stop_calls os p.process ++ all_stop_calls os ps

-- The process, if it runs, ends on one of the two signals in time.
abbrev pub Ends : System → Option ℕ → Type 0
Ends os none = true ≡ true
Ends os (some pid) = (is_some (os.poll pid) || os.ends_on_term pid || os.ends_on_kill pid) ≡ true

abbrev pub AllEnd : System → List (String × ManagedProcess) → Type 0
AllEnd os [] = Unit
AllEnd os ((key, p) ∷ ps) = Ends os p.process × AllEnd os ps

module _ (os : System) where
  record Stopped (p : ManagedProcess) : Type 0 where
    value : (stop_process os p).value ≡ p
    calls : (stop_process os p).calls ≡ stop_calls os p.process

  stop_process-Stopped : (p : ManagedProcess) → Stopped p
  unfolding stop_process stop_running
  stop_process-Stopped p = ground arith

  stop_process-raised :
      (p : ManagedProcess) → Ends os p.process → (stop_process os p).raised ≡ false
  unfolding stop_process stop_running
  stop_process-raised p ends = ground arith

  -- The loop up to a place that it reaches.
  for_each-stop_process :
      (ps qs : List (String × ManagedProcess))
      → AllEnd os ps
      → ((for_each (stop_process os) (ps ++ qs)).calls
          ≡ all_stop_calls os ps ++ (for_each (stop_process os) qs).calls)
        × ((for_each (stop_process os) (ps ++ qs)).raised ≡ (for_each (stop_process os) qs).raised)
  unfolding for_each
  for_each-stop_process [] qs end = (refl, refl)
  for_each-stop_process ((key, p) ∷ ps) qs end =
      let (calls, raised) = for_each-stop_process ps qs end.1 in
      rw (stop_process-raised p end.0) (
        ap₂ (λ a b. a ++ b) (stop_process-Stopped p).calls calls
            ∙ sym (append_assoc (stop_calls os p.process) (all_stop_calls os ps) _),
        raised,
      )

  stop_process-outlived :
      (p : ManagedProcess) (pid : ℕ)
      → p.process ≡ some pid
      → is_some (os.poll pid) ≡ false
      → os.ends_on_term pid ≡ false
      → os.ends_on_kill pid ≡ false
      → ((stop_process os p).calls ≡ term pid ∷ kill pid ∷ []) × ((stop_process os p).raised ≡ true)
  unfolding stop_process stop_running
  stop_process-outlived p pid runs alive no_term no_kill = ground arith

  for_each-outlived :
      (key : String) (p : ManagedProcess) (qs : List (String × ManagedProcess)) (pid : ℕ)
      → p.process ≡ some pid
      → is_some (os.poll pid) ≡ false
      → os.ends_on_term pid ≡ false
      → os.ends_on_kill pid ≡ false
      → ((for_each (stop_process os) ((key, p) ∷ qs)).calls ≡ term pid ∷ kill pid ∷ [])
        × ((for_each (stop_process os) ((key, p) ∷ qs)).raised ≡ true)
  unfolding for_each
  for_each-outlived key p qs pid runs alive no_term no_kill =
      let (calls, raised) = stop_process-outlived p pid runs alive no_term no_kill in
      rw raised (calls, refl)

-- When every process that runs ends in time on one of the two signals, a shutdown sends SIGTERM to
-- each process that runs and SIGKILL to each of these that does not end on it, in the order of the
-- table, and to no other, and ends without an exception.
pub shutdown_processes_lem :
    (os : System) (m : Manager)
    → AllEnd os (merge m.controlled_nodes m.permanent_nodes)
    → ((shutdown_processes os m).calls
        ≡ all_stop_calls os (merge m.controlled_nodes m.permanent_nodes))
      × ((shutdown_processes os m).raised ≡ false)
      × ((shutdown_processes os m).value.shutting_down ≡ true)
unfolding shutdown_processes for_each
shutdown_processes_lem os m end =
    let table : List (String × ManagedProcess) = merge m.controlled_nodes m.permanent_nodes in
    let (calls, raised) = for_each-stop_process os table [] end in
    (
      ap (λ ps. (for_each (stop_process os) ps).calls) (sym (append-nil table))
          ∙ calls
          ∙ append-nil (all_stop_calls os table),
      ap (λ ps. (for_each (stop_process os) ps).raised) (sym (append-nil table)) ∙ raised,
      refl,
    )

-- A process that outlives both signals ends the shutdown: those before it in the table are
-- stopped, it is sent both signals, none of those behind it is sent any, and the exception leaves
-- the shutdown.
pub shutdown_processes-outlived :
    (os : System) (m : Manager) (ps qs : List (String × ManagedProcess)) (key : String)
    (p : ManagedProcess) (pid : ℕ)
    → merge m.controlled_nodes m.permanent_nodes ≡ ps ++ (key, p) ∷ qs
    → AllEnd os ps
    → p.process ≡ some pid
    → is_some (os.poll pid) ≡ false
    → os.ends_on_term pid ≡ false
    → os.ends_on_kill pid ≡ false
    → ((shutdown_processes os m).calls ≡ all_stop_calls os ps ++ term pid ∷ kill pid ∷ [])
      × ((shutdown_processes os m).raised ≡ true)
unfolding shutdown_processes for_each
shutdown_processes-outlived os m ps qs key p pid table end runs alive no_term no_kill =
    let (calls, raised) = for_each-stop_process os ps ((key, p) ∷ qs) end in
    let (last_calls, last_raised) = for_each-outlived os key p qs pid runs alive no_term no_kill in
    (
      ap (λ l. (for_each (stop_process os) l).calls) table
          ∙ calls
          ∙ ap (λ c. all_stop_calls os ps ++ c) last_calls,
      ap (λ l. (for_each (stop_process os) l).raised) table ∙ raised ∙ last_raised,
    )

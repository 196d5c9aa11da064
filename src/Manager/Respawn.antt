-- ===== src/Manager/Respawn.antt =====
-- What the monitor starts.
use Prim.Native.String.{String}
use digital_twin_based_on_un.Common.{
  ℕ, ◌≡◌, refl, ap₂, ◌∙◌, Bool, true, false, inl, inr, List, [], ◌∷◌, ◌++◌, Option, none, some,
  is_some, if◌then◌else◌, Option-cases, arith,
}
use digital_twin_based_on_un.Manager.{
  ManagedProcess, Manager, System, Call, spawn, term, kill, Outcome, is_running, start_process,
  for_each, respawn, check_process, monitor_permanent_nodes, shutdown_processes,
}

-- The process of an entry is known to have exited.
abbrev pub has_exited : System → Option ℕ → Bool
has_exited os none = false
has_exited os (some pid) = is_some (os.poll pid)

-- The entry after the monitor: a process that has exited is replaced, or forgotten.
abbrev pub refreshed : Bool → System → ManagedProcess → ManagedProcess
refreshed respawning os p =
    if has_exited os p.process
    then record p { process = if respawning then os.popen p.command else none }
    else p

abbrev pub refresh_all :
    Bool → System → List (String × ManagedProcess) → List (String × ManagedProcess)
refresh_all respawning os [] = []
refresh_all respawning os ((key, p) ∷ ps) =
    (key, refreshed respawning os p) ∷ refresh_all respawning os ps

-- The starts that are due: the commands of what has exited, in the order of the table.
abbrev pub due : Bool → System → List (String × ManagedProcess) → List Call
due respawning os [] = []
due respawning os ((key, p) ∷ ps) =
    if respawning
    then if has_exited os p.process
      then spawn p.command ∷ due respawning os ps
      else due respawning os ps
    else []

module _ (respawning : Bool) (os : System)
    (starts : (command : List String) → is_some (os.popen command) ≡ true) where
  -- One entry under the monitor.
  record Checked (p : ManagedProcess) : Type 0 where
    value : (check_process respawning os p).value ≡ refreshed respawning os p
    calls :
        (check_process respawning os p).calls
        ≡ (if respawning then if has_exited os p.process then spawn p.command ∷ [] else [] else [])
    raised : (check_process respawning os p).raised ≡ false

  check_process-Checked : (p : ManagedProcess) → Checked p
  unfolding check_process respawn start_process is_running
  check_process-Checked p = elim (Option-cases (os.popen p.command)) [
    | inl failed ↦ ground (arith, starts p.command)
    | inr (pid, started) ↦ ground arith
  ]

  due-off : (ps : List (String × ManagedProcess)) → respawning ≡ false → due respawning os ps ≡ []
  due-off [] off = refl
  due-off ((key, p) ∷ ps) off = rw off refl

  due-next :
      (key : String) (p : ManagedProcess) (ps : List (String × ManagedProcess))
      → (if respawning then if has_exited os p.process then spawn p.command ∷ [] else [] else [])
          ++ due respawning os ps
        ≡ due respawning os ((key, p) ∷ ps)
  due-next key p ps = ground (arith, due-off ps)

  for_each-check_process :
      (ps : List (String × ManagedProcess))
      → ((for_each (check_process respawning os) ps).value ≡ refresh_all respawning os ps)
        × ((for_each (check_process respawning os) ps).calls ≡ due respawning os ps)
        × ((for_each (check_process respawning os) ps).raised ≡ false)
  unfolding for_each
  for_each-check_process [] = (refl, refl, refl)
  for_each-check_process ((key, p) ∷ ps) =
      let c = check_process-Checked p in
      let (values, calls, raised) = for_each-check_process ps in
      let due_calls = due-next key p ps in
      rw c.raised (
        ap₂ (λ q qs. (key, q) ∷ qs) c.value values,
        ap₂ (λ a b. a ++ b) c.calls calls ∙ due_calls,
        raised,
      )

-- The monitor, unless the manager is shutting down and when every start succeeds: the processes
-- that have exited, and they alone, are started again in the order of the table by their own
-- commands, or forgotten without the respawn flag; the rest of the table stays.
pub monitor_permanent_nodes_lem :
    (os : System) (m : Manager)
    → ((command : List String) → is_some (os.popen command) ≡ true)
    → m.shutting_down ≡ false
    → ((monitor_permanent_nodes os m).value.permanent_nodes
        ≡ refresh_all m.respawn_permanent_nodes os m.permanent_nodes)
      × ((monitor_permanent_nodes os m).calls ≡ due m.respawn_permanent_nodes os m.permanent_nodes)
      × ((monitor_permanent_nodes os m).raised ≡ false)
unfolding monitor_permanent_nodes
monitor_permanent_nodes_lem os m starts on =
    let (values, calls, raised) =
      for_each-check_process m.respawn_permanent_nodes os starts m.permanent_nodes in
    rw on (values, calls, raised)

-- A callback, with what the system answers in it.
pub data Event : Type 0 where
  tick : System → Event
  shutdown : System → Event

unfoldable pub step : Event → Manager → Outcome Manager
step (tick os) m = monitor_permanent_nodes os m
step (shutdown os) m = shutdown_processes os m

-- The calls of a sequence of callbacks.
unfoldable pub run_calls : Manager → List Event → List Call
run_calls m [] = []
run_calls m (e ∷ es) = (step e m).calls ++ run_calls (step e m).value es

abbrev pub IsStop : Call → Type 0
IsStop (spawn command) = ⊥
IsStop (term pid) = Unit
IsStop (kill pid) = Unit

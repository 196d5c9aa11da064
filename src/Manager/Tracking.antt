-- ===== src/Manager/Tracking.antt =====
-- The children that are alive are those that the table of the manager names.
use Prim.Native.String.{String}
use text.Mathlib.Text.{◌==◌ as str_eq}
use digital_twin_based_on_un.Common.{
  ℕ, ◌≡◌, refl, ap, ◌∙◌, Bool, true, false, not, ◌||◌, ◌&&◌, ◌==◌, inl, inr, List, [], ◌∷◌, ◌++◌,
  Option, none, some, is_some, elem, Option-cases, Bool-cases, arith,
}
use digital_twin_based_on_un.Manager.{
  ManagedProcess, System, Call, Outcome, is_running, start_process, for_each, respawn,
  check_process, start_permanent_nodes, monitor_permanent_nodes,
}
use digital_twin_based_on_un.Manager.Nodes.{Config, build_permanent_nodes, new_manager}
use digital_twin_based_on_un.Manager.Children.{
  World, without, after_call, after_calls, Answers, started, exited, monitored, Reach, begins,
  exits, ticks,
}

-- The entry has this process.
abbrev pub has_pid : ℕ → Option ℕ → Bool
has_pid pid none = false
has_pid pid (some p) = p == pid

abbrev pub names : ℕ → List (String × ManagedProcess) → Bool
names pid [] = false
names pid ((key, p) ∷ ps) = has_pid pid p.process || names pid ps

pub elem-without :
    (pid q : ℕ) (alive : List ℕ) → elem q alive ≡ false → elem q (without pid alive) ≡ false
elem-without pid q [] h = refl
elem-without pid q (p ∷ ps) h = ground (arith, elem-without pid q ps)

pub after_calls-append :
    (os : System) (xs ys : List Call) (alive : List ℕ)
    → after_calls os (xs ++ ys) alive ≡ after_calls os ys (after_calls os xs alive)
after_calls-append os [] ys alive = refl
after_calls-append os (x ∷ xs) ys alive = after_calls-append os xs ys (after_call os x alive)

-- A piece of code for one entry that loses no child: one alive after it was alive before or is the
-- entry's now, and the entry gives up its process only once that has exited.
record Keeps (os : System) (pid : ℕ) (p : ManagedProcess) (o : Outcome ManagedProcess)
    : Type 0 where
  fresh :
      (alive : List ℕ)
      → elem pid (after_calls os o.calls alive) ≡ true
      → (elem pid alive || has_pid pid o.value.process) ≡ true
  held :
      is_some (os.poll pid) ≡ false
      → has_pid pid p.process ≡ true
      → has_pid pid o.value.process ≡ true

module _ (os : System) (pid : ℕ) where
  start_process-Keeps : (p : ManagedProcess) → Keeps os pid p (start_process os p)
  unfolding start_process is_running
  start_process-Keeps p = elim (Option-cases (os.popen p.command)) [
    | inl failed ↦ record { fresh = λ alive h. ground arith; held = λ on h. ground arith }
    | inr (q, ok) ↦ record { fresh = λ alive h. ground arith; held = λ on h. ground arith }
  ]

  check_process-Keeps :
      (respawning : Bool) (p : ManagedProcess) → Keeps os pid p (check_process respawning os p)
  unfolding check_process respawn start_process is_running
  check_process-Keeps respawning p = elim (Option-cases (os.popen p.command)) [
    | inl failed ↦ record { fresh = λ alive h. ground arith; held = λ on h. ground arith }
    | inr (q, ok) ↦ record { fresh = λ alive h. ground arith; held = λ on h. ground arith }
  ]

abbrev pub Table : Type 0
Table = List (String × ManagedProcess)

-- A loop over the table of a body that loses no child.
module _ (os : System) (pid : ℕ) (body : ManagedProcess → Outcome ManagedProcess)
    (keeps : (p : ManagedProcess) → Keeps os pid p (body p)) where
  for_each-fresh :
      (ps : Table) (alive : List ℕ)
      → elem pid (after_calls os (for_each body ps).calls alive) ≡ true
      → (elem pid alive || names pid (for_each body ps).value) ≡ true
  unfolding for_each
  for_each-fresh [] alive h = ground arith
  for_each-fresh ((key, p) ∷ ps) alive h =
      let k = keeps p in
      let moved = after_calls-append os (body p).calls (for_each body ps).calls alive in
      elim (Bool-cases (body p).raised) [
        | inl cut ↦ ground (arith, cut, k.fresh alive)
        | inr on ↦ ground (
          arith,
          on,
          moved,
          k.fresh alive,
          for_each-fresh ps (after_calls os (body p).calls alive),
        )
      ]

  for_each-held :
      (ps : Table)
      → is_some (os.poll pid) ≡ false
      → names pid ps ≡ true
      → names pid (for_each body ps).value ≡ true
  unfolding for_each
  for_each-held [] on h = h
  for_each-held ((key, p) ∷ ps) on h =
      let k = keeps p in ground (arith, k.held on, for_each-held ps on)

-- The keys of a table.
abbrev pub keys : Table → List String
keys [] = []
keys ((key, p) ∷ ps) = key ∷ keys ps

keys-for_each :
    (body : ManagedProcess → Outcome ManagedProcess) (ps : Table)
    → keys (for_each body ps).value ≡ keys ps
unfolding for_each
keys-for_each body [] = refl
keys-for_each body ((key, p) ∷ ps) = ground (arith, keys-for_each body ps)

abbrev pub has_key : String → List String → Bool
has_key k [] = false
has_key k (j ∷ js) = str_eq j k || has_key k js

abbrev pub distinct : List String → Bool
distinct [] = true
distinct (k ∷ ks) = not (has_key k ks) && distinct ks

-- Every child that is alive is in the table, and the table is the one the manager was made with
-- but for the processes.
pub record IsTracked (w : World) : Type 0 where
  pub tracked : (pid : ℕ) → elem pid w.alive ≡ true → names pid w.manager.permanent_nodes ≡ true
  pub alone : w.manager.controlled_nodes ≡ []
  pub apart : distinct (keys w.manager.permanent_nodes) ≡ true

started-IsTracked : (os : System) (cfg : Config) → IsTracked (started os cfg)
unfolding started start_permanent_nodes new_manager
started-IsTracked os cfg = record {
  tracked = λ pid h.
      for_each-fresh os pid (start_process os) (start_process-Keeps os pid)
        (build_permanent_nodes cfg) [] h;
  alone = refl;
  apart =
      ap distinct (keys-for_each (start_process os) (build_permanent_nodes cfg))
      ∙ unfold build_permanent_nodes in refl;
}

exited-IsTracked : (pid : ℕ) (w : World) → IsTracked w → IsTracked (exited pid w)
unfolding exited
exited-IsTracked pid w i = record {
  tracked = λ q h. ground (arith, i.tracked q, elem-without pid q w.alive);
  alone = i.alone;
  apart = i.apart;
}

monitored-IsTracked :
    (os : System) (w : World) → Answers os w.alive → IsTracked w → IsTracked (monitored os w)
unfolding monitored monitor_permanent_nodes
monitored-IsTracked os w answers i =
    let body = check_process w.manager.respawn_permanent_nodes os in
    let ps = w.manager.permanent_nodes in
    elim (Bool-cases w.manager.shutting_down) [
      | inl down ↦ simp down i
      | inr on ↦ record {
        tracked = λ pid h.
            let k = check_process-Keeps os pid w.manager.respawn_permanent_nodes in
            ground (
              arith,
              on,
              i.tracked pid,
              answers pid,
              for_each-fresh os pid body k ps w.alive,
              for_each-held os pid body k ps,
            );
        alone = rw on i.alone;
        apart = rw (on, keys-for_each body ps) i.apart;
      }
    ]

-- In every world that a manager can reach, whatever children exit and whatever starts fail, each
-- child that is alive is the process of an entry of the table.
pub Reach-IsTracked : (w : World) → Reach w → IsTracked w
Reach-IsTracked w (begins os cfg) = started-IsTracked os cfg
Reach-IsTracked _ (exits {w} pid r) = exited-IsTracked pid w (Reach-IsTracked w r)
Reach-IsTracked _ (ticks {w} os answers r) = monitored-IsTracked os w answers (Reach-IsTracked w r)

-- ===== src/Manager/Orphans.antt =====
-- What is left of the children after a shutdown.
use Prim.Native.String.{String}
use mathlib.Core.List.{append_assoc, append-nil}
use text.Mathlib.Text.{◌==◌ as str_eq}
use text.Mathlib.TextEquality.{eq_iff}
use digital_twin_based_on_un.Common.{
  ℕ, ◌≡◌, refl, sym, ap, ◌∙◌, true, false, not, ◌||◌, ◌&&◌, inl, inr, List, [], ◌∷◌, ◌++◌, Option,
  none, some, is_some, elem, Bool-cases, Option-cases, arith, Bool, ==_iff,
}
use digital_twin_based_on_un.Bridges.Joints.{insert}
use digital_twin_based_on_un.Manager.{ManagedProcess, System, merge, shutdown_processes}
use digital_twin_based_on_un.Manager.Shutdown.{
  stop_calls, all_stop_calls, Ends, AllEnd, shutdown_processes_lem,
}
use digital_twin_based_on_un.Manager.Children.{
  World, without, after_calls, Answers, shut_down, Reach,
}
use digital_twin_based_on_un.Manager.Tracking.{
  Table, keys, has_key, distinct, has_pid, names, elem-without, after_calls-append, Reach-IsTracked,
}

-- A table with distinct keys is merged as it stands.
insert-new :
    (key : String) (p : ManagedProcess) (ps : Table)
    → has_key key (keys ps) ≡ false
    → insert key p ps ≡ ps ++ (key, p) ∷ []
insert-new key p [] new = refl
insert-new key p ((k, q) ∷ ps) new = ground (arith, insert-new key p ps)

has_key-append :
    (key j : String) (p : ManagedProcess) (ps : Table)
    → has_key key (keys (ps ++ (j, p) ∷ [])) ≡ (has_key key (keys ps) || str_eq j key)
has_key-append key j p [] = ground arith
has_key-append key j p ((k, q) ∷ ps) = ground (arith, has_key-append key j p ps)

str_eq-sym : (a b : String) → str_eq a b ≡ true → str_eq b a ≡ true
str_eq-sym a b h = (eq_iff b a).1 (sym ((eq_iff a b).0 h))

-- No key of the list is a key of the table.
abbrev clear_of : Table → List String → Bool
clear_of ps [] = true
clear_of ps (k ∷ ks) = not (has_key k (keys ps)) && clear_of ps ks

clear_of-append :
    (key : String) (p : ManagedProcess) (ps : Table) (ks : List String)
    → has_key key ks ≡ false
    → clear_of ps ks ≡ true
    → clear_of (ps ++ (key, p) ∷ []) ks ≡ true
clear_of-append key p ps [] new clear = refl
clear_of-append key p ps (k ∷ ks) new clear =
    ground (arith, has_key-append k key p ps, str_eq-sym key k, clear_of-append key p ps ks)

merge-append :
    (ps qs : Table)
    → clear_of ps (keys qs) ≡ true
    → distinct (keys qs) ≡ true
    → merge ps qs ≡ ps ++ qs
merge-append ps [] clear apart = sym (append-nil ps)
merge-append ps ((key, q) ∷ qs) clear apart =
    ap (λ rs. merge rs qs) (insert-new key q ps (ground arith))
    ∙ merge-append (ps ++ (key, q) ∷ []) qs (ground (arith, clear_of-append key q ps (keys qs)))
        (ground arith)
    ∙ append_assoc ps ((key, q) ∷ []) qs

clear_of-nil : (ks : List String) → clear_of [] ks ≡ true
clear_of-nil [] = refl
clear_of-nil (k ∷ ks) = clear_of-nil ks

without-elem : (pid : ℕ) (alive : List ℕ) → elem pid (without pid alive) ≡ false
without-elem pid [] = refl
without-elem pid (p ∷ ps) = ground (arith, without-elem pid ps)

module _ (os : System) (pid : ℕ) where
  -- A signal makes no child.
  elem-stop_calls :
      (process : Option ℕ) (alive : List ℕ)
      → elem pid alive ≡ false
      → elem pid (after_calls os (stop_calls os process) alive) ≡ false
  elem-stop_calls none alive h = h
  elem-stop_calls (some q) alive h =
      ground (arith, elem-without q pid alive, elem-without q pid (without q alive))

  elem-all_stop_calls :
      (ps : Table) (alive : List ℕ)
      → elem pid alive ≡ false
      → elem pid (after_calls os (all_stop_calls os ps) alive) ≡ false
  elem-all_stop_calls [] alive h = h
  elem-all_stop_calls ((key, p) ∷ ps) alive h =
      rw (after_calls-append os (stop_calls os p.process) (all_stop_calls os ps) alive) (
        elem-all_stop_calls ps (after_calls os (stop_calls os p.process) alive)
          (elem-stop_calls p.process alive h))

  -- A child that is alive is gone after the calls for its own entry.
  stop_calls-gone :
      (process : Option ℕ) (alive : List ℕ)
      → has_pid pid process ≡ true
      → is_some (os.poll pid) ≡ false
      → Ends os process
      → elem pid (after_calls os (stop_calls os process) alive) ≡ false
  stop_calls-gone none alive h on ends = ground arith
  stop_calls-gone (some q) alive h on ends =
      ground (arith, ==_iff q pid, without-elem q alive, elem-without q pid alive)

  -- Every child that is in the table and alive is gone after the calls for all entries.
  all_stop_calls-gone :
      (ps : Table) (alive : List ℕ)
      → names pid ps ≡ true
      → is_some (os.poll pid) ≡ false
      → AllEnd os ps
      → elem pid (after_calls os (all_stop_calls os ps) alive) ≡ false
  all_stop_calls-gone [] alive h on end = ground arith
  all_stop_calls-gone ((key, p) ∷ ps) alive h on end =
      let next = after_calls os (stop_calls os p.process) alive in
      rw (after_calls-append os (stop_calls os p.process) (all_stop_calls os ps) alive)
        (elim (Bool-cases (has_pid pid p.process)) [
          | inl mine ↦ elem-all_stop_calls ps next (stop_calls-gone p.process alive mine on end.0)
          | inr other ↦ all_stop_calls-gone ps next (ground arith) on end.1
        ])

nobody : (alive : List ℕ) → ((pid : ℕ) → elem pid alive ≡ false) → alive ≡ []
nobody [] none_left = refl
nobody (pid ∷ alive) none_left = ground (arith, none_left pid)

-- Each child that is alive ends on one of the two signals in time.
abbrev pub EndAlive : System → List ℕ → Type 0
EndAlive os alive =
    (pid : ℕ) → elem pid alive ≡ true → (os.ends_on_term pid || os.ends_on_kill pid) ≡ true

EndAlive-AllEnd :
    (os : System) (alive : List ℕ) (ps : Table)
    → Answers os alive
    → EndAlive os alive
    → AllEnd os ps
EndAlive-AllEnd os alive [] answers end = tt
EndAlive-AllEnd os alive ((key, p) ∷ ps) answers end = (
  elim (Option-cases p.process) [
    | inl idle ↦ rw idle refl
    | inr (pid, runs) ↦ rw runs (ground (arith, answers pid, end pid))
  ],
  EndAlive-AllEnd os alive ps answers end,
)

-- From any world that a manager can reach, whatever children have exited and whatever starts have
-- failed before: a shutdown in which each child that is alive ends on one of the two signals in
-- time leaves no child alive, and ends without an exception.
pub shut_down-Reach :
    (os : System) (w : World)
    → Reach w
    → Answers os w.alive
    → EndAlive os w.alive
    → ((shut_down os w).alive ≡ []) × ((shutdown_processes os w.manager).raised ≡ false)
unfolding shut_down
shut_down-Reach os w reached answers end =
    let i = Reach-IsTracked w reached in
    let ps = w.manager.permanent_nodes in
    let table : merge w.manager.controlled_nodes ps ≡ ps =
      ap (λ qs. merge qs ps) i.alone ∙ merge-append [] ps (clear_of-nil (keys ps)) i.apart in
    let all_end = EndAlive-AllEnd os w.alive ps answers end in
    let (calls, raised, down) = shutdown_processes_lem os w.manager (rw table all_end) in
    (
      ap (λ cs. after_calls os cs w.alive) (calls ∙ ap (all_stop_calls os) table)
          ∙ nobody (after_calls os (all_stop_calls os ps) w.alive) (λ pid.
            elim (Bool-cases (elem pid w.alive)) [
              | inl on ↦
                  all_stop_calls-gone os pid ps w.alive (i.tracked pid on) (answers pid ∙ ap not on)
                    all_end
              | inr off ↦ elem-all_stop_calls os pid ps w.alive off
            ]),
      raised,
    )

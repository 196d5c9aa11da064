-- ===== src/Manager/Children.antt =====
-- The children of the manager as the operating system keeps them, and how a run of the manager
-- changes them: a child exits by itself, the monitor runs, or the manager shuts down.
use digital_twin_based_on_un.Common.{
  ℕ, ◌≡◌, not, ◌==◌, List, [], ◌∷◌, Option, none, some, is_some, elem, if◌then◌else◌,
}
use digital_twin_based_on_un.Manager.{
  Manager, System, Call, spawn, term, kill, start_permanent_nodes, monitor_permanent_nodes,
  shutdown_processes,
}
use digital_twin_based_on_un.Manager.Nodes.{Config, new_manager}

-- `alive` lists the children that have not exited.
pub record World : Type 0 where
  pub manager : Manager
  pub alive : List ℕ

abbrev pub without : ℕ → List ℕ → List ℕ
without pid [] = []
without pid (p ∷ ps) = if p == pid then without pid ps else p ∷ without pid ps

abbrev pub with_child : Option ℕ → List ℕ → List ℕ
with_child none alive = alive
with_child (some pid) alive = pid ∷ alive

-- What a call does to the children: a signal ends the process that ends on it.
abbrev pub after_call : System → Call → List ℕ → List ℕ
after_call os (spawn command) alive = with_child (os.popen command) alive
after_call os (term pid) alive = if os.ends_on_term pid then without pid alive else alive
after_call os (kill pid) alive = if os.ends_on_kill pid then without pid alive else alive

abbrev pub after_calls : System → List Call → List ℕ → List ℕ
after_calls os [] alive = alive
after_calls os (c ∷ cs) alive = after_calls os cs (after_call os c alive)

-- `poll` tells which children are alive.
abbrev pub Answers : System → List ℕ → Type 0
Answers os alive = (pid : ℕ) → is_some (os.poll pid) ≡ not (elem pid alive)

-- `__init__`, also when a start raises an exception.
unfoldable pub started : System → Config → World
started os cfg =
    let o = start_permanent_nodes os (new_manager cfg) in
    record { manager = o.value; alive = after_calls os o.calls [] }

unfoldable pub exited : ℕ → World → World
exited pid w = record w { alive = without pid w.alive }

unfoldable pub monitored : System → World → World
monitored os w =
    let o = monitor_permanent_nodes os w.manager in
    record { manager = o.value; alive = after_calls os o.calls w.alive }

unfoldable pub shut_down : System → World → World
shut_down os w =
    let o = shutdown_processes os w.manager in
    record { manager = o.value; alive = after_calls os o.calls w.alive }

-- The worlds that a manager can reach before it shuts down.
pub data Reach : World → Type 0 where
  begins : (os : System) (cfg : Config) → Reach (started os cfg)
  exits : {w : World} (pid : ℕ) → Reach w → Reach (exited pid w)
  ticks : {w : World} (os : System) → Answers os w.alive → Reach w → Reach (monitored os w)

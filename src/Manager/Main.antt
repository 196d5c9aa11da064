-- ===== src/Manager/Main.antt =====
-- `main` of the manager: the lock, the constructor, the executor until it ends, and the shutdown
-- in its `finally` block.
use digital_twin_based_on_un.Common.{ℕ, Bool, true, false, ◌||◌, List, [], ◌∷◌, if◌then◌else◌}
use digital_twin_based_on_un.Manager.{
  System, start_permanent_nodes, monitor_permanent_nodes, shutdown_processes,
}
use digital_twin_based_on_un.Manager.Nodes.{Config, new_manager}
use digital_twin_based_on_un.Manager.Children.{
  World, Answers, started, exited, monitored, shut_down,
}

-- What happens while the executor spins: a child exits, or the timer of the monitor is due.
pub data SpinEvent : Type 0 where
  child_exits : ℕ → SpinEvent
  timer_due : System → SpinEvent

-- `rclpy.spin` up to a KeyboardInterrupt behind the last event, or up to an exception of the
-- monitor: the world, and whether there was one.
unfoldable pub spin : List SpinEvent → World → World × Bool
spin [] w = (w, false)
spin (child_exits pid ∷ es) w = spin es (exited pid w)
spin (timer_due os ∷ es) w =
    let rest = spin es (monitored os w) in
    if (monitor_permanent_nodes os w.manager).raised then (monitored os w, true) else rest

-- No child, and no exception yet.
abbrev nothing : Config → World
nothing cfg = record { manager = new_manager cfg; alive = [] }

-- The world after `main`, and whether an exception left it: `locked` when another manager holds
-- the lock. An exception of the constructor is not caught.
unfoldable pub main : Bool → System → Config → List SpinEvent → System → World × Bool
main locked os_start cfg es os_end =
    if locked
    then (nothing cfg, true)
    else if (start_permanent_nodes os_start (new_manager cfg)).raised
    then (started os_start cfg, true)
    else (let (w, raised) = spin es (started os_start cfg) in
        (shut_down os_end w, raised || (shutdown_processes os_end w.manager).raised))

-- `poll` tells which children are alive whenever the monitor runs.
abbrev pub Truthful : List SpinEvent → World → Type 0
Truthful [] w = Unit
Truthful (child_exits pid ∷ es) w = Truthful es (exited pid w)
Truthful (timer_due os ∷ es) w = Answers os w.alive × Truthful es (monitored os w)

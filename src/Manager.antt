-- ===== src/Manager.antt =====
-- The supervisor of the other processes: digital_twin_on_unity_and_ros2/manager/
-- digital_twin_manager_node.py under the repository's src/.
-- A function takes what the operating system answers and returns the processes, the calls made
-- of the system in order, and whether an exception ended it. The log lines and the
-- environment of the children are left out.
pub mod Nodes
pub mod Children
pub mod Tracking
pub mod Orphans
pub mod Main
pub mod Lock
pub mod Respawn
pub mod Shutdown
mod Tests
use Prim.Native.String.{String}
use digital_twin_based_on_un.Common.{
  ℕ, Bool, true, false, ◌&&◌, not, List, [], ◌∷◌, ◌++◌, map, Option, none, some, is_some,
  if◌then◌else◌,
}
use digital_twin_based_on_un.Common.Int.{ℤ}
use digital_twin_based_on_un.Bridges.Joints.{insert}

-- `process` is the process id of the child, if there is one.
pub record ManagedProcess : Type 0 where
  pub name : String
  pub command : List String
  pub process : Option ℕ

pub record Manager : Type 0 where
  pub respawn_permanent_nodes : Bool
  pub permanent_nodes : List (String × ManagedProcess)
  pub controlled_nodes : List (String × ManagedProcess)
  pub shutting_down : Bool

-- What the system answers during one callback. A handler asks at most once about a process.
pub record System : Type 0 where
  -- the exit code of a process, none while it runs
  pub poll : ℕ → Option ℤ
  -- the id of the child that a command starts, none when the start raises an exception
  pub popen : List String → Option ℕ
  -- whether the wait after SIGTERM, and the one after SIGKILL, sees the process end in time
  pub ends_on_term : ℕ → Bool
  pub ends_on_kill : ℕ → Bool

pub data Call : Type 0 where
  spawn : List String → Call
  term : ℕ → Call
  kill : ℕ → Call

-- A value after a piece of code, its calls, and whether it ended with an exception.
pub record Outcome {ℓ} (A : Type ℓ) : Type ℓ where
  pub value : A
  pub calls : List Call
  pub raised : Bool

-- `managed_process.process and managed_process.process.poll() is None`
unfoldable pub is_running : System → Option ℕ → Bool
is_running os none = false
is_running os (some pid) = not (is_some (os.poll pid))

unfoldable pub start_process : System → ManagedProcess → Outcome ManagedProcess
start_process os p =
    if is_running os p.process
    then record { value = p; calls = []; raised = false }
    else elim (os.popen p.command) [
      | none ↦ record { value = p; calls = spawn p.command ∷ []; raised = true }
      | some pid ↦ record {
        value = record p { process = some pid };
        calls = spawn p.command ∷ [];
        raised = false;
      }
    ]

-- A loop over the values of a dict, which an exception ends.
unfoldable pub for_each :
    (ManagedProcess → Outcome ManagedProcess)
    → List (String × ManagedProcess)
    → Outcome (List (String × ManagedProcess))
for_each body [] = record { value = []; calls = []; raised = false }
for_each body ((key, p) ∷ ps) =
    let first = body p in
    let rest = for_each body ps in
    if first.raised
    then record { value = (key, first.value) ∷ ps; calls = first.calls; raised = true }
    else record {
      value = (key, first.value) ∷ rest.value;
      calls = first.calls ++ rest.calls;
      raised = rest.raised;
    }

unfoldable pub start_permanent_nodes : System → Manager → Outcome Manager
start_permanent_nodes os m =
    let started = for_each (start_process os) m.permanent_nodes in
    record {
      value = record m { permanent_nodes = started.value };
      calls = started.calls;
      raised = started.raised;
    }

-- The body of the loop of `_monitor_permanent_nodes`, for a process that has exited.
unfoldable pub respawn : Bool → System → ManagedProcess → Outcome ManagedProcess
respawn respawn_permanent_nodes os p =
    if respawn_permanent_nodes
    then start_process os (record p { process = none })
    else record { value = record p { process = none }; calls = []; raised = false }

-- The body of that loop.
unfoldable pub check_process : Bool → System → ManagedProcess → Outcome ManagedProcess
check_process respawn_permanent_nodes os p = elim p.process [
  | none ↦ record { value = p; calls = []; raised = false }
  | some pid ↦
      if is_some (os.poll pid)
      then respawn respawn_permanent_nodes os p
      else record { value = p; calls = []; raised = false }
]

unfoldable pub monitor_permanent_nodes : System → Manager → Outcome Manager
monitor_permanent_nodes os m =
    if m.shutting_down
    then record { value = m; calls = []; raised = false }
    else (let checked = for_each (check_process m.respawn_permanent_nodes os) m.permanent_nodes in
        record {
          value = record m { permanent_nodes = checked.value };
          calls = checked.calls;
          raised = checked.raised;
        })

-- `_stop_process`, once the process is known to run.
unfoldable pub stop_running : System → ℕ → ManagedProcess → Outcome ManagedProcess
stop_running os pid p =
    if os.ends_on_term pid
    then record { value = p; calls = term pid ∷ []; raised = false }
    else record { value = p; calls = term pid ∷ kill pid ∷ []; raised = not (os.ends_on_kill pid) }

unfoldable pub stop_process : System → ManagedProcess → Outcome ManagedProcess
stop_process os p = elim p.process [
  | none ↦ record { value = p; calls = []; raised = false }
  | some pid ↦
      if is_some (os.poll pid)
      then record { value = p; calls = []; raised = false }
      else stop_running os pid p
]

-- `{**a, **b}`
abbrev pub merge :
    List (String × ManagedProcess) → List (String × ManagedProcess) → List (String × ManagedProcess)
merge a [] = a
merge a ((key, p) ∷ b) = merge (insert key p a) b

unfoldable pub shutdown_processes : System → Manager → Outcome Manager
shutdown_processes os m =
    let stopped = for_each (stop_process os) (merge m.controlled_nodes m.permanent_nodes) in
    record {
      value = record m { shutting_down = true };
      calls = stopped.calls;
      raised = stopped.raised;
    }

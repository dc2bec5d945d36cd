-- ===== src/Tasks/Store.antt =====
-- include/tasks/tasks.h: `task_t`, as far as the task functions read and write it, and the globals.
use bomboclaat_os.Base.{ℕ, Bool, true, false, List, [], ◌∷◌, ◌++◌, ◌==◌, if◌then◌else◌}
use bomboclaat_os.Vfs.{Table, Files}

pub data TaskState : Type 0 where
  ready running blocked zombie new : TaskState

abbrev pub state_eq : TaskState → TaskState → Bool
state_eq ready ready = true
state_eq running running = true
state_eq blocked blocked = true
state_eq zombie zombie = true
state_eq new new = true
state_eq _ _ = false

pub record Task : Type 0 where
  pub pid : ℕ
  pub parent : ℕ
  pub children : List ℕ
  pub state : TaskState
  pub next : ℕ
  pub fd_table : Table
  pub pending_signal : ℕ
  pub sigterm_handler_rip : ℕ
  pub exit_code : ℕ

pub record Sys : Type 0 where
  pub task : ℕ → Task
  pub tasks : List ℕ
  pub current_task : ℕ
  pub kernel_task : ℕ
  pub next_pid : ℕ
  pub files : Files

abbrev pub max_tasks : ℕ
max_tasks = 32

abbrev pub put_task : ℕ → Task → (ℕ → Task) → ℕ → Task
put_task p t store q = if p == q then t else store q

-- A write to a field of `*p`.
abbrev pub modify : ℕ → (Task → Task) → Sys → Sys
modify p f s = record s { task = put_task p (f (s.task p)) s.task }

abbrev pub set_state : TaskState → Task → Task
set_state st t = record t { state = st }

-- list_del of the link of `p`, which stands in one list at most.
unfoldable pub list_del : ℕ → List ℕ → List ℕ
list_del p [] = []
list_del p (q ∷ qs) = if q == p then qs else q ∷ list_del p qs

-- list_del and list_add_tail on the children of a task, and a write to `parent`.
abbrev pub del_child : ℕ → Task → Task
del_child c t = record t { children = list_del c t.children }

abbrev pub add_child : ℕ → Task → Task
add_child c t = record t { children = t.children ++ (c ∷ []) }

abbrev pub set_parent : ℕ → Task → Task
set_parent p t = record t { parent = p }

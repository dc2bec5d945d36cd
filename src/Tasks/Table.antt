-- ===== src/Tasks/Table.antt =====
-- core/tasks/tasks.c: the array of tasks and the run queue. core/tasks/sched.c: pick_next_task.
use bomboclaat_os.Base.{
  ℕ, zero, suc, ◌+◌, ◌%◌, ◌^◌, Bool, not, ◌&&◌, Option, none, some, List, [], ◌∷◌, ◌==◌,
  if◌then◌else◌, set,
}
use bomboclaat_os.Tasks.Store.{
  ready, running, new, state_eq, Task, Sys, max_tasks, modify, set_state, set_parent, add_child,
}

-- The lowest index, from `i` on, at which the array holds `p`. With `p` null this is
-- find_free_slot. The result -1 is `none`.
unfoldable pub find_from : ℕ → ℕ → List ℕ → Option ℕ
find_from p i [] = none
find_from p i (q ∷ qs) = if q == p then some i else find_from p (i + 1) qs

unfoldable pub find_free_slot : Sys → Option ℕ
unfolding find_from
find_free_slot s = find_from 0 0 s.tasks

unfoldable pub find_in_array : ℕ → Sys → Option ℕ
unfolding find_from
find_in_array t s = find_from t 0 s.tasks

-- The first task of the array that passes the test; 0 is NULL.
unfoldable pub find_task : (Task → Bool) → (ℕ → Task) → List ℕ → ℕ
find_task test task [] = 0
find_task test task (p ∷ ps) = if not (p == 0) && test (task p) then p else find_task test task ps

unfoldable pub find_by_pid : ℕ → Sys → ℕ
unfolding find_task
find_by_pid pid s = find_task (λ t. t.pid == pid) s.task s.tasks

unfoldable pub find_just_forked : Sys → ℕ
unfolding find_task
find_just_forked s = find_task (λ t. state_eq t.state new) s.task s.tasks

unfoldable pub task_insert : ℕ → Sys → Sys
unfolding find_free_slot
task_insert t s = elim (find_free_slot s) [
  | none ↦ s
  | some slot ↦ record s { tasks = set s.tasks slot t }
]

unfoldable pub new_pid : Sys → ℕ × Sys
new_pid s = (s.next_pid, record s { next_pid = (s.next_pid + 1) % 2 ^ 32 })

unfoldable pub task_link : ℕ → ℕ → Sys → Sys
unfolding task_insert
task_link parent child s =
    let s1 = modify child (set_parent parent) s in
    let s2 = modify parent (add_child child) s1 in
    let after = (s2.task s2.kernel_task).next in
    let s3 = modify child (λ t. record t { next = after }) s2 in
    let s4 = modify s3.kernel_task (λ t. record t { next = child }) s3 in task_insert child s4

-- The loop of unlink_from_runqueue, from `node`; it ends when it is back at the kernel task. A
-- queue that does not lead back runs out of `fuel`.
unfoldable pub unlink_loop : ℕ → ℕ → ℕ → Sys → Option Sys
unlink_loop zero victim node s = none
unlink_loop (suc fuel) victim node s =
    let after = (s.task node).next in
    let rest = unlink_loop fuel victim after s in
    if after == victim
    then some (modify node (λ t. record t { next = (s.task victim).next }) s)
    else if after == s.kernel_task
    then some s
    else rest

-- A run queue has a node for each entry of the array at most.
unfoldable pub unlink_from_runqueue : ℕ → Sys → Option Sys
unlink_from_runqueue victim s = unlink_loop (max_tasks + 1) victim s.kernel_task s

-- The loop of pick_next_task, with `rounds` nodes left to look at.
unfoldable pub pick_loop : ℕ → ℕ → Sys → ℕ
pick_loop zero node s = s.kernel_task
pick_loop (suc rounds) node s =
    let rest = pick_loop rounds (s.task node).next s in
    if not (node == s.kernel_task) && state_eq (s.task node).state ready then node else rest

-- `if (current_task->state == TASK_RUNNING) current_task->state = TASK_READY;`
unfoldable pub yield_current : Sys → Sys
yield_current s =
    if state_eq (s.task s.current_task).state running
    then modify s.current_task (set_state ready) s
    else s

unfoldable pub pick_next_task : Sys → ℕ × Sys
pick_next_task s =
    let s' = yield_current s in (pick_loop (max_tasks + 2) (s'.task s'.current_task).next s', s')

-- sched, as far as the tasks go: the task that was picked runs. The change of stack, page tables
-- and registers that follows is not modelled.
unfoldable pub sched : Sys → Sys
sched s =
    let (next, s') = pick_next_task s in
    record (modify next (set_state running) s') { current_task = next }

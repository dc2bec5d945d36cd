-- ===== src/Tasks/Life.antt =====
-- core/tasks/tasks.c: task_terminate, task_reap and task_reap_orphans. core/tasks/exit.c: exit and
-- waitpid. Address spaces, kernel stacks and the memory of the task are given back too, which is
-- not modelled.
use bomboclaat_os.Base.{
  ℕ, zero, suc, ◌+◌, not, ◌&&◌, ◌||◌, Option, none, some, List, [], ◌∷◌, ◌==◌, if◌then◌else◌, ltb,
  set, get_or,
}
use bomboclaat_os.Vfs.{close_from, max_files_per_task}
use bomboclaat_os.Tasks.Store.{
  ready, blocked, zombie, state_eq, Task, Sys, modify, set_state, del_child, add_child, set_parent,
}
use bomboclaat_os.Tasks.Table.{find_in_array, find_by_pid, unlink_from_runqueue, sched}

-- `for (…) if (t->fd_table[i]) vfs_close(i, t->fd_table);`
unfoldable pub close_files : ℕ → Sys → Sys
close_files t s =
    let (table, files) = close_from max_files_per_task 0 (s.task t).fd_table s.files in
    record (modify t (λ k. record k { fd_table = table }) s) { files = files }

-- The loop over the children of `t`: each goes to the end of the kernel task's list.
unfoldable pub adopt_one : ℕ → ℕ → Sys → Sys
adopt_one t c s =
    modify s.kernel_task (add_child c)
      (modify c (set_parent s.kernel_task) (modify t (del_child c) s))

unfoldable pub adopt : ℕ → List ℕ → Sys → Sys
adopt t [] s = s
adopt t (c ∷ cs) s = adopt t cs (adopt_one t c s)

-- `if (t->parent && t->parent->state == TASK_BLOCKED) t->parent->state = TASK_READY;`
unfoldable pub wake_parent : ℕ → Sys → Sys
wake_parent t s =
    let p = (s.task t).parent in
    if not (p == 0) && state_eq (s.task p).state blocked then modify p (set_state ready) s else s

unfoldable pub become_zombie : ℕ → Task → Task
become_zombie code t = record t { exit_code = code; state = zombie; pending_signal = 0 }

-- The three assignments of task_terminate, and its loop over the descriptors.
unfoldable pub ended : ℕ → ℕ → Sys → Sys
ended t code s = close_files t (modify t (become_zombie code) s)

unfoldable pub task_terminate : ℕ → ℕ → Sys → Sys
task_terminate t code s =
    let s1 = ended t code s in
    if (t == 0) || (t == s.kernel_task) || state_eq (s.task t).state zombie
    then s
    else wake_parent t (adopt t (s1.task t).children s1)

-- `if (slot > 0) tasks[slot] = NULL;`
unfoldable pub clear_slot : ℕ → Sys → Sys
clear_slot t s = elim (find_in_array t s) [
  | none ↦ s
  | some slot ↦ if ltb 0 slot then record s { tasks = set s.tasks slot 0 } else s
]

-- `none` is a run queue that does not lead back to the kernel task.
unfoldable pub task_reap : ℕ → Sys → Option Sys
task_reap t s =
    if (t == 0)
      || (t == s.current_task)
      || (t == s.kernel_task)
      || not (state_eq (s.task t).state zombie)
    then some s
    else elim (unlink_from_runqueue t s) [
      | none ↦ none
      | some s1 ↦
          let s2 = clear_slot t s1 in
          let p = (s2.task t).parent in
          let s3 = modify p (del_child t) s2 in some (close_files t s3)
    ]

-- The loop of task_reap_orphans, from index `i`.
unfoldable pub reap_orphans_loop : ℕ → ℕ → Sys → Option Sys
reap_orphans_loop zero i s = some s
reap_orphans_loop (suc rounds) i s =
    let t = get_or s.tasks i 0 in
    let go =
      not (t == 0)
      && state_eq (s.task t).state zombie
      && ((s.task t).parent == s.kernel_task)
      && not (t == s.current_task) in
    elim (if go then task_reap t s else some s) [
      | none ↦ none
      | some s' ↦ reap_orphans_loop rounds (i + 1) s'
    ]

unfoldable pub task_reap_orphans : Sys → Option Sys
task_reap_orphans s = reap_orphans_loop 31 1 s

-- exit: `none` is -EPERM; otherwise the call does not return, and another task runs.
unfoldable pub exit : ℕ → Sys → Option Sys
exit status s =
    if s.current_task == s.kernel_task
    then none
    else some (sched (task_terminate s.current_task status s))

pub data WaitStep : Type 0 where
  no_child : WaitStep
  interrupted : WaitStep
  waiting : Sys → WaitStep
  done : ℕ → Option Sys → WaitStep

-- One round of the loop of waitpid: when the task runs again after `waiting`, the next one follows.
unfoldable pub wait_round : ℕ → Sys → WaitStep
wait_round child s =
    if state_eq (s.task child).state zombie
    then done (s.task child).exit_code (task_reap child s)
    else if (s.task s.current_task).pending_signal == 0
    then waiting (sched (modify s.current_task (set_state blocked) s))
    else interrupted

unfoldable pub waitpid : ℕ → Sys → WaitStep
waitpid pid s =
    let child = find_by_pid pid s in
    if (child == 0) || not ((s.task child).parent == s.current_task)
    then no_child
    else wait_round child s

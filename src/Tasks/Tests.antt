-- ===== src/Tasks/Tests.antt =====
-- core/tasks: the kernel task, a shell and its child.
use bomboclaat_os.Base.{
  ℕ, ◌+◌, ◌≡◌, refl, sym, ◌≢◌, inl, inr, none, some, List, [], ◌∷◌, length, ◌==◌, if◌then◌else◌,
  ◌≤◌, ◌∙◌, ==_iff, Bool-cases, replicate, arith,
}
use bomboclaat_os.Base.Int.{pos}
use bomboclaat_os.Tasks.Store.{TaskState, ready, running, blocked, Task, Sys, put_task, modify}
use bomboclaat_os.Tasks.Table.{
  find_task, find_by_pid, unlink_from_runqueue, pick_loop, yield_current, pick_next_task, sched,
}
use bomboclaat_os.Tasks.Life.{task_terminate}
use bomboclaat_os.Tasks.Signal.{signal_send}
use bomboclaat_os.Tasks.Ring.{IsRing, unlink_from_runqueue-IsRing}
use bomboclaat_os.Tasks.Pick.{first_ready, pick_next_task-first_ready}
use bomboclaat_os.Tasks.Wait.{pick_next_task-Waits}
use bomboclaat_os.Tasks.Laws.{IsExclusive, sched-IsExclusive}
use bomboclaat_os.Tasks.End.{Terminated, task_terminate-Terminated}
use bomboclaat_os.Tasks.Sent.{SendOutcome, signal_send-SendOutcome}
use bomboclaat_os.Tasks.Send.{note_signal, signal_send-Terminated}

abbrev no_files : List ℕ
no_files = replicate 32 0

abbrev make_task : ℕ → ℕ → List ℕ → TaskState → ℕ → Task
make_task pid parent children state next = record {
  pid = pid;
  parent = parent;
  children = children;
  state = state;
  next = next;
  fd_table = no_files;
  pending_signal = 0;
  sigterm_handler_rip = 0;
  exit_code = 0;
}

-- The pointers 1, 2 and 3; the processes have the numbers 0, 10 and 11.
abbrev store : ℕ → Task
store =
    put_task 1 (make_task 0 0 (2 ∷ []) running 2)
      (put_task 2 (make_task 10 1 (3 ∷ []) blocked 3) (λ p. make_task 11 2 [] ready 1))

abbrev three : Sys
three = record {
  task = store;
  tasks = 1 ∷ 2 ∷ 3 ∷ [];
  current_task = 1;
  kernel_task = 1;
  next_pid = 12;
  files = λ p. none;
}

IsRing-three : IsRing three (2 ∷ 3 ∷ [])
IsRing-three =
    ((refl, (refl, refl)), ((omega arith, (omega arith, tt)), ((omega arith, tt), (tt, tt))))

only_kernel_runs : IsExclusive three
only_kernel_runs p = elim (Bool-cases (1 == p)) [
  | inl e ↦ λ h. sym ((==_iff 1 p).0 e)
  | inr e ↦ elim (Bool-cases (2 == p)) [ inl k ↦ rw (e, k) (λ h. cc) | inr k ↦ rw (e, k) (λ h. cc) ]
]

shell_is_10 : find_by_pid 10 three ≡ 2
unfolding find_by_pid find_task
shell_is_10 = refl

picks_the_child : (pick_next_task three).0 ≡ 3
unfolding pick_next_task pick_loop yield_current
picks_the_child = refl

unlink_from_runqueue-IsRing_example :
    (s' : Sys) × (unlink_from_runqueue 3 three ≡ some s') × IsRing s' (2 ∷ [])
unlink_from_runqueue-IsRing_example =
    unlink_from_runqueue-IsRing (2 ∷ []) [] 3 three IsRing-three (omega arith)

pick_next_task-first_ready_example :
    let s' = yield_current three in pick_next_task three ≡ (first_ready s' (2 ∷ 3 ∷ 1 ∷ []), s')
pick_next_task-first_ready_example =
    pick_next_task-first_ready (2 ∷ 3 ∷ []) three IsRing-three.0 (omega arith)

sched-IsExclusive_example :
    IsExclusive (sched three) × (((sched three).task (sched three).current_task).state ≡ running)
sched-IsExclusive_example = sched-IsExclusive three only_kernel_runs

task_terminate-Terminated_example : Terminated 2 7 three (task_terminate 2 7 three)
task_terminate-Terminated_example =
    task_terminate-Terminated 2 7 three (omega arith) (omega arith) (λ e. cc) (omega arith, tt)

signal_send-Terminated_example :
    let s' = signal_send 1 10 three in
    (s'.0 ≡ pos 0) × Terminated 2 (128 + 1) (modify 2 (note_signal 1) three) s'.1
signal_send-Terminated_example =
    signal_send-Terminated 1 10 2 three shell_is_10 (omega arith) (omega arith) (omega arith)
      (omega arith) (λ e. cc) (omega arith, tt) (inl refl)

signal_send-SendOutcome_example : SendOutcome 2 10 three (signal_send 2 10 three)
signal_send-SendOutcome_example = signal_send-SendOutcome 2 10 three

-- Both the shell and its child are ready.
abbrev two_ready : Sys
two_ready = record three {
  task = λ p. if p == 2 then record (three.task 2) { state = ready } else three.task p;
}

picks_the_shell : (pick_next_task two_ready).0 ≡ 2
unfolding pick_next_task pick_loop yield_current
picks_the_shell = refl

-- Who stands before the child.
abbrev before_child : List ℕ
before_child = 2 ∷ []

pick_next_task-Waits_example : 1 ≤ length before_child
pick_next_task-Waits_example =
    pick_next_task-Waits 1 before_child 3 [] two_ready (refl, (refl, refl)) (omega arith) refl
      (
        (λ e. two_ne (sym picks_the_shell ∙ e)),
        record two_ready { current_task = 2 },
        sym picks_the_shell,
        (λ p. refl),
        refl,
        tt,
      )
  where
    two_ne : ◌≢◌ {A = ℕ} 2 3
    two_ne = omega arith

-- ===== src/Tasks/Send.antt =====
-- core/tasks/ipc/signal.c: what signal_send does to its target.
use bomboclaat_os.Base.{ℕ, ◌+◌, ◌≡◌, refl, ◌∙◌, ◌≢◌, ◌⊎◌, inl, inr, false, ==_iff, ==_false, arith}
use bomboclaat_os.Base.Int.{pos}
use bomboclaat_os.Tasks.Store.{zombie, state_eq, Task, Sys, modify}
use bomboclaat_os.Tasks.Table.{find_by_pid}
use bomboclaat_os.Tasks.Life.{task_terminate}
use bomboclaat_os.Tasks.Ring.{Avoids}
use bomboclaat_os.Tasks.Signal.{sigkill, sigterm, sched_if_current, execute_signal, signal_send}
use bomboclaat_os.Tasks.End.{Terminated, task_terminate-Terminated}

-- The task with the signal noted in it.
abbrev pub note_signal : ℕ → Task → Task
note_signal sig k = record k { pending_signal = sig }

-- The signal is fatal to `t`: SIGKILL, or SIGTERM without a handler.
abbrev pub IsFatal : ℕ → ℕ → Sys → Type 0
IsFatal sig t s = (sig ≡ sigkill) ⊎ ((sig ≡ sigterm) × ((s.task t).sigterm_handler_rip ≡ 0))

execute_signal-fatal :
    (sig t : ℕ) (s : Sys)
    → t ≢ 0
    → t ≢ (task_terminate t (128 + sig) s).current_task
    → (s.task t).pending_signal ≡ sig
    → IsFatal sig t s
    → execute_signal t s ≡ (pos 0, task_terminate t (128 + sig) s)
unfolding execute_signal sched_if_current
execute_signal-fatal sig t s t0 tc e how =
    let a = ==_false t 0 t0 in
    let b = ==_false t (task_terminate t (128 + sig) s).current_task tc in
    elim how [
      | inl k ↦ let b1 = rw k at b in rw (a, e, k, sched_if_current, b1) refl
      | inr (k, h) ↦ let b2 = rw k at b in rw (a, e, k, h, sched_if_current, b2) refl
    ]

send_step :
    (sig pid t : ℕ) (s : Sys)
    → find_by_pid pid s ≡ t
    → pid ≢ 0
    → t ≢ 0
    → (s.task t).state ≢ zombie
    → (sig ≡ sigkill) ⊎ (sig ≡ sigterm)
    → signal_send sig pid s ≡ execute_signal t (modify t (note_signal sig) s)
unfolding signal_send
send_step sig pid t s f p0 t0 tz how =
    let a = ==_false pid 0 p0 in
    let b = ==_false t 0 t0 in
    let c : state_eq (s.task t).state zombie ≡ false = ground arith in
    rw (a, f, b, c) (elim how [ inl k ↦ rw k refl | inr k ↦ rw k refl ])

-- A fatal signal to a task other than the kernel task and the one that runs: signal_send returns 0,
-- and the task has ended with the exit code 128 and the number of the signal.
pub signal_send-Terminated :
    (sig pid t : ℕ) (s : Sys)
    → find_by_pid pid s ≡ t
    → pid ≢ 0
    → t ≢ 0
    → t ≢ s.kernel_task
    → t ≢ s.current_task
    → (s.task t).state ≢ zombie
    → Avoids t (s.task t).children
    → IsFatal sig t s
    → let s' = signal_send sig pid s in
      (s'.0 ≡ pos 0) × Terminated t (128 + sig) (modify t (note_signal sig) s) s'.1
signal_send-Terminated sig pid t s f p0 t0 tk tc tz out how =
    let s1 = modify t (note_signal sig) s in
    let self = (==_iff t t).1 refl in
    let known : (sig ≡ sigkill) ⊎ (sig ≡ sigterm) = elim how [
      | inl k ↦ inl k
      | inr (k, h) ↦ inr k
    ] in
    let ends = task_terminate-Terminated t (128 + sig) s1 t0 tk (rw self tz) (rw self out) in
    let run =
      send_step sig pid t s f p0 t0 tz known
      ∙ execute_signal-fatal sig t s1 t0 (λ q. tc (q ∙ ends.current)) (rw self refl)
          (rw self how) in
    rw run (refl, ends)

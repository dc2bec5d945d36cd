-- ===== src/Tasks/Signal.antt =====
-- core/tasks/ipc/signal.c: sending a signal, and its delivery on the way back to user mode.
use bomboclaat_os.Base.{ℕ, ◌+◌, ◌-◌, ◌*◌, ◌/◌, ◌%◌, ◌^◌, Bool, not, ◌&&◌, ◌||◌, ◌==◌, if◌then◌else◌}
use bomboclaat_os.Base.Int.{ℤ, pos, minus_one}
use bomboclaat_os.Tasks.Store.{ready, blocked, zombie, state_eq, Sys, modify, set_state}
use bomboclaat_os.Tasks.Table.{find_by_pid, sched}
use bomboclaat_os.Tasks.Life.{task_terminate}

abbrev pub sigkill : ℕ
sigkill = 1

abbrev pub sigterm : ℕ
sigterm = 2

-- `if (target == current_task) sched();`
unfoldable pub sched_if_current : ℕ → Sys → Sys
sched_if_current target s = if target == s.current_task then sched s else s

unfoldable pub execute_signal : ℕ → Sys → ℤ × Sys
unfolding sched_if_current
execute_signal target s =
    let t = s.task target in
    if target == 0
    then (pos 1, s)
    else if t.pending_signal == sigkill
    then (pos 0, sched_if_current target (task_terminate target (128 + sigkill) s))
    else if t.pending_signal == sigterm
    then (if t.sigterm_handler_rip == 0
        then (pos 0, sched_if_current target (task_terminate target (128 + sigterm) s))
        else if state_eq t.state blocked
        then (pos 0, modify target (set_state ready) s)
        else (pos 0, s))
    else (minus_one, modify target (λ k. record k { pending_signal = 0 }) s)

unfoldable pub signal_send : ℕ → ℕ → Sys → ℤ × Sys
signal_send sig target s =
    let t = find_by_pid target s in
    if target == 0
    then (pos 1, s)
    else if (t == 0) || state_eq (s.task t).state zombie
    then (pos 2, s)
    else if not (sig == sigkill) && not (sig == sigterm)
    then (minus_one, s)
    else execute_signal t (modify t (λ k. record k { pending_signal = sig }) s)

-- Where the user program goes on: as before, in the handler with a new stack pointer, or nowhere.
pub data Delivery : Type 0 where
  unchanged : Delivery
  handler : (rip rsp : ℕ) → Delivery
  terminated : Delivery

-- `((*user_rsp - 128) & ~0xF) - 8`
abbrev pub signal_sp : ℕ → ℕ
signal_sp rsp = ((rsp + 2 ^ 64 - 128) % 2 ^ 64 / 16 * 16 + 2 ^ 64 - 8) % 2 ^ 64

-- `pushed sp` says whether copy_to_user wrote the return address at `sp`.
unfoldable pub signal_check_user : (pushed : ℕ → Bool) → (user_rsp : ℕ) → Sys → Delivery × Sys
signal_check_user pushed user_rsp s =
    let c = s.current_task in
    let t = s.task c in
    let sig = t.pending_signal in
    let s1 = modify c (λ k. record k { pending_signal = 0 }) s in
    let killed : Delivery × Sys = (terminated, sched (task_terminate c (128 + sig) s1)) in
    if sig == 0
    then (unchanged, s)
    else if (sig == sigterm) && not (t.sigterm_handler_rip == 0)
    then (if pushed (signal_sp user_rsp)
        then (
          handler t.sigterm_handler_rip (signal_sp user_rsp),
          modify c (λ k. record k { sigterm_handler_rip = 0 }) s1,
        )
        else killed)
    else killed

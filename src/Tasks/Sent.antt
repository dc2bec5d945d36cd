-- ===== src/Tasks/Sent.antt =====
-- core/tasks/ipc/signal.c: what signal_send returns, in terms of the array of tasks.
use bomboclaat_os.Base.{
  ℕ, ◌≡◌, refl, sym, ap, ◌∙◌, ◌≢◌, ◌⊎◌, inl, inr, List, [], ◌∷◌, if◌then◌else◌, not, ◌&&◌, ◌==◌,
  ==_iff, ==_false, Bool-cases, false≢true, arith,
}
use bomboclaat_os.Base.Int.{ℤ, pos, minus_one}
use bomboclaat_os.Tasks.Store.{ready, blocked, zombie, state_eq, Task, Sys, modify, set_state}
use bomboclaat_os.Tasks.Table.{find_task, find_by_pid}
use bomboclaat_os.Tasks.Signal.{sigkill, sigterm, execute_signal, signal_send}
use bomboclaat_os.Tasks.Send.{note_signal, IsFatal}

-- The entry is free, or its process has another number.
abbrev pub IsOther : ℕ → (ℕ → Task) → ℕ → Type 0
IsOther pid task p = (p ≡ 0) ⊎ ((task p).pid ≢ pid)

abbrev pub NoneHas : ℕ → (ℕ → Task) → List ℕ → Type 0
NoneHas pid task [] = Unit
NoneHas pid task (p ∷ ps) = IsOther pid task p × NoneHas pid task ps

-- `t` is the first task of the list with the number `pid`.
abbrev pub IsFirst : ℕ → (ℕ → Task) → List ℕ → ℕ → Type 0
IsFirst pid task [] t = ⊥
IsFirst pid task (p ∷ ps) t =
    ((t ≡ p) × (p ≢ 0) × ((task p).pid ≡ pid)) ⊎ (IsOther pid task p × IsFirst pid task ps t)

abbrev Looked : ℕ → (ℕ → Task) → List ℕ → ℕ → Type 0
Looked pid task ps t = ((t ≡ 0) × NoneHas pid task ps) ⊎ ((t ≢ 0) × IsFirst pid task ps t)

find_task-Looked :
    (pid : ℕ) (task : ℕ → Task) (ps : List ℕ)
    → Looked pid task ps (find_task (λ t. t.pid == pid) task ps)
unfolding find_task
find_task-Looked pid task [] = inl (refl, tt)
find_task-Looked pid task (p ∷ ps) = elim (Bool-cases (not (p == 0) && ((task p).pid == pid))) [
  | inl here ↦ rw here (inr (ground arith, inl (refl, ground arith, ground arith)))
  | inr other ↦
      let passed : IsOther pid task p = ground arith in
      rw other (elim (find_task-Looked pid task ps) [
        | inl (null, none_has) ↦ inl (null, (passed, none_has))
        | inr (found, first) ↦ inr (found, inr (passed, first))
      ])
]

-- The handler of `t` is to run: SIGTERM is noted in it, it is ready if it was blocked, and no other
-- task, nor the array and the current task, has changed.
pub record Handled (t : ℕ) (s s' : Sys) : Type 0 where
  pub noted : (s'.task t).pending_signal ≡ sigterm
  pub handler : (s'.task t).sigterm_handler_rip ≡ (s.task t).sigterm_handler_rip
  pub woken :
      (s'.task t).state ≡ (if state_eq (s.task t).state blocked then ready else (s.task t).state)
  pub others : (q : ℕ) → q ≢ t → s'.task q ≡ s.task q
  pub tasks : s'.tasks ≡ s.tasks
  pub current : s'.current_task ≡ s.current_task

-- What signal_send may do once it has found the task `t`.
abbrev pub Reached : (sig t : ℕ) → Sys → ℤ × Sys → Type 0
Reached sig t s (r, s') =
    (((s.task t).state ≡ zombie) × (r ≡ pos 2) × (s' ≡ s))
    ⊎ (((s.task t).state ≢ zombie)
        × (((sig ≢ sigkill) × (sig ≢ sigterm) × (r ≡ minus_one) × (s' ≡ s))
            ⊎ (((sig ≡ sigterm)
                  × ((s.task t).sigterm_handler_rip ≢ 0)
                  × (r ≡ pos 0)
                  × Handled t s s')
                ⊎ (IsFatal sig t s × (r ≡ pos 0)))))

abbrev pub SendOutcome : (sig pid : ℕ) → Sys → ℤ × Sys → Type 0
SendOutcome sig pid s (r, s') =
    ((pid ≡ 0) × (r ≡ pos 1) × (s' ≡ s))
    ⊎ ((pid ≢ 0)
        × ((NoneHas pid s.task s.tasks × (r ≡ pos 2) × (s' ≡ s))
            ⊎ ((t : ℕ) × IsFirst pid s.task s.tasks t × Reached sig t s (r, s'))))

execute_signal-Handled :
    (t : ℕ) (s : Sys)
    → t ≢ 0
    → (s.task t).sigterm_handler_rip ≢ 0
    → let s' = execute_signal t (modify t (note_signal sigterm) s) in
      (s'.0 ≡ pos 0) × Handled t s s'.1
unfolding execute_signal
execute_signal-Handled t s t0 h =
    let s1 = modify t (note_signal sigterm) s in
    let null = ==_false t 0 t0 in
    let self = (==_iff t t).1 refl in
    let handled = ==_false (s.task t).sigterm_handler_rip 0 h in
    elim (Bool-cases (state_eq (s.task t).state blocked)) [
      | inl asleep ↦
          let run : execute_signal t s1 ≡ (pos 0, modify t (set_state ready) s1) =
            rw (null, self, handled, asleep, execute_signal) refl in
          rw run (
            refl,
            record {
              noted = rw self refl;
              handler = rw self refl;
              woken = rw (self, asleep) refl;
              others = λ q other. let o = ==_false t q (λ e. other (sym e)) in rw o refl;
              tasks = refl;
              current = refl;
            },
          )
      | inr awake ↦
          let run : execute_signal t s1 ≡ (pos 0, s1) =
            rw (null, self, handled, awake, execute_signal) refl in
          rw run (
            refl,
            record {
              noted = rw self refl;
              handler = rw self refl;
              woken = rw (self, awake) refl;
              others = λ q other. let o = ==_false t q (λ e. other (sym e)) in rw o refl;
              tasks = refl;
              current = refl;
            },
          )
    ]

execute_signal-fatal_result :
    (sig t : ℕ) (s : Sys)
    → t ≢ 0
    → IsFatal sig t s
    → (execute_signal t (modify t (note_signal sig) s)).0 ≡ pos 0
unfolding execute_signal
execute_signal-fatal_result sig t s t0 how =
    let null = ==_false t 0 t0 in
    let self = (==_iff t t).1 refl in
    elim how [
      | inl kill ↦ rw (null, self, kill, execute_signal) refl
      | inr (term, unhandled) ↦ rw (null, self, term, unhandled, execute_signal) refl
    ]

-- signal_send, once it has found the task `t`.
abbrev send_to : (sig t : ℕ) → Sys → ℤ × Sys
send_to sig t s =
    if state_eq (s.task t).state zombie
    then (pos 2, s)
    else if not (sig == sigkill) && not (sig == sigterm)
    then (minus_one, s)
    else execute_signal t (modify t (note_signal sig) s)

send_to-Reached : (sig t : ℕ) (s : Sys) → t ≢ 0 → Reached sig t s (send_to sig t s)
send_to-Reached sig t s t0 = elim (Bool-cases (state_eq (s.task t).state zombie)) [
  | inl ended ↦ rw ended (inl (ground arith, refl, refl))
  | inr live ↦
      let alive : (s.task t).state ≢ zombie = λ e. false≢true (sym live ∙ rw e refl) in
      elim (Bool-cases (sig == sigkill)) [
        | inl k ↦
            let kill : sig ≡ sigkill = (==_iff sig sigkill).0 k in
            rw (live, k)
              (inr (alive, inr (inr (inl kill, execute_signal-fatal_result sig t s t0 (inl kill)))))
        | inr not_kill ↦ elim (Bool-cases (sig == sigterm)) [
          | inr not_term ↦
              rw (live, not_kill, not_term)
                (inr (alive, inl (ground arith, ground arith, refl, refl)))
          | inl m ↦
              let term : sig ≡ sigterm = (==_iff sig sigterm).0 m in
              elim (Bool-cases ((s.task t).sigterm_handler_rip == 0)) [
                | inl none_set ↦
                    let fatal : IsFatal sig t s = inr (term, (==_iff _ 0).0 none_set) in
                    rw (live, not_kill, m)
                      (inr (alive, inr (inr (fatal, execute_signal-fatal_result sig t s t0 fatal))))
                | inr is_set ↦
                    let installed : (s.task t).sigterm_handler_rip ≢ 0 = ground arith in
                    let (done, handled) = execute_signal-Handled t s t0 installed in
                    let same : execute_signal t (modify t (note_signal sig) s)
                        ≡ execute_signal t (modify t (note_signal sigterm) s) =
                      ap (λ n. execute_signal t (modify t (note_signal n) s)) term in
                    rw (live, not_kill, m, same)
                      (inr (alive, inr (inl (term, installed, done, handled))))
              ]
        ]
      ]
]

-- signal_send has the result 1 for process 0, and 2 if no task of the array has the number or the first
-- one that has it has ended; for another signal than SIGKILL and SIGTERM the result is -1; in all of
-- these cases the system stays as it is. SIGTERM to a live task with a handler gives 0, notes the
-- signal in that task, makes it ready if it was blocked, and changes no other task. A fatal signal to a
-- live task gives 0.
pub signal_send-SendOutcome :
    (sig pid : ℕ) (s : Sys) → SendOutcome sig pid s (signal_send sig pid s)
unfolding signal_send find_by_pid
signal_send-SendOutcome sig pid s = elim (Bool-cases (pid == 0)) [
  | inl zero_pid ↦ rw zero_pid (inl (ground arith, refl, refl))
  | inr p0 ↦
      let nonzero : pid ≢ 0 = ground arith in
      elim (find_task-Looked pid s.task s.tasks) [
        | inl (null, none_has) ↦ rw (p0, null) (inr (nonzero, inl (none_has, refl, refl)))
        | inr (found, first) ↦
            let f = ==_false _ _ found in
            rw (p0, f) (inr (nonzero, inr (_, first, send_to-Reached sig _ s found)))
      ]
]

-- ===== src/Tasks/Laws.antt =====
-- core/tasks/sched.c: one task runs at a time.
use bomboclaat_os.Base.{
  ℕ, ◌≡◌, refl, sym, ap, ◌∙◌, ◌≢◌, inl, inr, true, ◌==◌, ==_iff, Bool-cases, arith,
}
use bomboclaat_os.Tasks.Store.{TaskState, running, state_eq, Sys}
use bomboclaat_os.Tasks.Table.{yield_current, pick_next_task, sched}

pub state_eq_iff : (a b : TaskState) → state_eq a b ≡ true → a ≡ b
state_eq_iff a b = ground arith

-- Only the current task is in the state `running`.
abbrev pub IsExclusive : Sys → Type 0
IsExclusive s = (p : ℕ) → (s.task p).state ≡ running → p ≡ s.current_task

none_running : (s : Sys) → IsExclusive s → (p : ℕ) → ((yield_current s).task p).state ≢ running
unfolding yield_current
none_running s v p = elim (Bool-cases (state_eq (s.task s.current_task).state running)) [
  | inl runs ↦ rw runs (elim (Bool-cases (s.current_task == p)) [
    | inl e ↦ rw e (λ h. cc)
    | inr ne ↦ rw ne (λ h. ground (arith, v p h))
  ])
  | inr idle ↦ rw idle (λ h.
      let at : p ≡ s.current_task = v p h in
      let cur : (s.task s.current_task).state ≡ running = ap (λ q. (s.task q).state) (sym at) ∙ h in
      ground arith)
]

-- sched keeps it that only the current task runs, and the task that it picks does run.
pub sched-IsExclusive :
    (s : Sys)
    → IsExclusive s
    → IsExclusive (sched s) × (((sched s).task (sched s).current_task).state ≡ running)
unfolding sched pick_next_task
sched-IsExclusive s v =
    let n = (pick_next_task s).0 in
    let self = (==_iff n n).1 refl in
    (
      (λ p h. elim (Bool-cases (n == p)) [
        | inl e ↦ sym ((==_iff n p).0 e)
        | inr ne ↦ absurd (none_running s v p (rw ne at h))
      ]),
      rw self refl,
    )

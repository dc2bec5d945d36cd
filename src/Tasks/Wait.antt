-- ===== src/Tasks/Wait.antt =====
-- core/tasks/sched.c: how long a ready task waits for its turn.
use bomboclaat_os.Base.{
  ℕ, zero, suc, ◌≤◌, ◌≡◌, ◌≢◌, ◌⊎◌, refl, sym, ap, ◌∙◌, subst, inl, inr, true, false, List, [], ◌∷◌,
  ◌++◌, append_assoc, ◌==◌, Bool-cases, length, length-append, arith,
}
use bomboclaat_os.Tasks.Store.{running, state_eq, Task, Sys, max_tasks}
use bomboclaat_os.Tasks.Table.{yield_current, pick_next_task}
use bomboclaat_os.Tasks.Ring.{Chain}
use bomboclaat_os.Tasks.Pick.{can_run, first_ready, Chain-congr, pick_next_task-first_ready}

-- `n` turns in which `y` is ready and another task is picked. Between two turns the tasks may do
-- anything that leaves the run queue as it is and `y` ready.
abbrev pub Waits : (y n : ℕ) → Sys → Type 0
Waits y zero s = Unit
Waits y (suc n) s =
    ((pick_next_task s).0 ≢ y)
    × (s' : Sys) × (s'.current_task ≡ (pick_next_task s).0)
    × ((p : ℕ) → (s'.task p).next ≡ (s.task p).next)
    × (can_run s' y ≡ true)
    × Waits y n s'

Chain-split :
    (task : ℕ → Task) (a : ℕ) (xs : List ℕ) (b : ℕ) (ys : List ℕ) (c : ℕ)
    → Chain task a (xs ++ (b ∷ ys)) c
    → Chain task a xs b × Chain task b ys c
Chain-split task a [] b ys c h = (h.0, h.1)
Chain-split task a (x ∷ xs) b ys c h =
    let (l, r) = Chain-split task x xs b ys c h.1 in ((h.0, l), r)

Chain-join :
    (task : ℕ → Task) (a : ℕ) (xs : List ℕ) (b : ℕ) (ys : List ℕ) (c : ℕ)
    → Chain task a xs b
    → Chain task b ys c
    → Chain task a (xs ++ (b ∷ ys)) c
Chain-join task a [] b ys c l r = (l, r)
Chain-join task a (x ∷ xs) b ys c l r = (l.0, Chain-join task x xs b ys c l.1 r)

-- The first ready task is `y` itself or stands before it.
pub record Before (t : Sys) (pre : List ℕ) (first : ℕ) : Type 0 where
  pub passed : List ℕ
  pub left : List ℕ
  pub parts : pre ≡ passed ++ (first ∷ left)

first_ready-Before :
    (t : Sys) (pre : List ℕ) (y : ℕ) (behind : List ℕ)
    → can_run t y ≡ true
    → (first_ready t (pre ++ (y ∷ behind)) ≡ y) ⊎ Before t pre (first_ready t (pre ++ (y ∷ behind)))
first_ready-Before t [] y behind run = inl (rw run refl)
first_ready-Before t (x ∷ pre) y behind run = elim (Bool-cases (can_run t x)) [
  | inl here ↦ inr (rw here (record { passed = []; left = pre; parts = refl }))
  | inr not_here ↦ rw not_here (further (first_ready-Before t pre y behind run))
]
  where
    further :
        (first_ready t (pre ++ (y ∷ behind)) ≡ y)
          ⊎ Before t pre (first_ready t (pre ++ (y ∷ behind)))
        → (first_ready t (pre ++ (y ∷ behind)) ≡ y)
          ⊎ Before t (x ∷ pre) (first_ready t (pre ++ (y ∷ behind)))
    further (inl e) = inl e
    further (inr b) =
        inr (record { passed = x ∷ b.passed; left = b.left; parts = ap (λ l. x ∷ l) b.parts })

-- A task that is ready stays so when the current one gives way.
can_run-yield_current : (s : Sys) (y : ℕ) → can_run s y ≡ true → can_run (yield_current s) y ≡ true
unfolding yield_current
can_run-yield_current s y run = elim (Bool-cases (state_eq (s.task s.current_task).state running)) [
  | inr other ↦ rw other run
  | inl runs ↦ elim (Bool-cases (s.current_task == y)) [
    | inl same ↦
        let user : (y == s.kernel_task) ≡ false = ground arith in rw runs (rw (same, user) refl)
    | inr other ↦ rw runs (rw other run)
  ]
]

-- The ring from one of its nodes on.
rotate :
    (task : ℕ → Task) (cur : ℕ) (passed : List ℕ) (x : ℕ) (behind : List ℕ)
    → Chain task cur (passed ++ (x ∷ behind)) cur
    → Chain task x (behind ++ (cur ∷ passed)) x
rotate task cur passed x behind ring =
    let (to_x, from_x) = Chain-split task cur passed x behind cur ring in
    Chain-join task x behind cur passed x from_x to_x

-- While the run queue stays as it is, a ring of which at most 32 tasks stand behind the current one, a
-- task that is ready waits for no more turns than tasks stand between the current one and it.
pub pick_next_task-Waits :
    (n : ℕ) (pre : List ℕ) (y : ℕ) (post : List ℕ) (s : Sys)
    → Chain s.task s.current_task (pre ++ (y ∷ post)) s.current_task
    → length (pre ++ (y ∷ post)) ≤ max_tasks
    → can_run s y ≡ true
    → Waits y n s
    → n ≤ length pre
pick_next_task-Waits zero pre y post s ring few run w = omega arith
pick_next_task-Waits (suc n) pre y post s ring few run (other, s', turn, links, run', w) =
    let t = yield_current s in
    let cur = s.current_task in
    let behind = post ++ (cur ∷ []) in
    let picked : (pick_next_task s).0 ≡ first_ready t (pre ++ (y ∷ behind)) =
      ap (λ (r : ℕ × Sys). r.0) (pick_next_task-first_ready (pre ++ (y ∷ post)) s ring few)
      ∙ ap (first_ready t) (append_assoc pre (y ∷ post) (cur ∷ [])) in
    elim (first_ready-Before t pre y behind (can_run-yield_current s y run)) [
      | inl e ↦ absurd (other (picked ∙ e))
      | inr b ↦
          let x = s'.current_task in
          let parts : pre ≡ b.passed ++ (x ∷ b.left) =
            b.parts ∙ ap (λ z. b.passed ++ (z ∷ b.left)) (sym (turn ∙ picked)) in
          let whole : pre ++ (y ∷ post) ≡ b.passed ++ (x ∷ (b.left ++ (y ∷ post))) =
            ap (λ l. l ++ (y ∷ post)) parts ∙ append_assoc b.passed (x ∷ b.left) (y ∷ post) in
          let turned = append_assoc b.left (y ∷ post) (cur ∷ b.passed) in
          let from_x : Chain s.task x (b.left ++ (y ∷ (post ++ (cur ∷ b.passed)))) x =
            subst (λ l. Chain s.task x l x) turned
              (rotate s.task cur b.passed x (b.left ++ (y ∷ post))
                (subst (λ l. Chain s.task cur l cur) whole ring)) in
          let size = ap length parts ∙ length-append b.passed (x ∷ b.left) in
          let old_size = length-append pre (y ∷ post) in
          let new_size = length-append b.left (y ∷ (post ++ (cur ∷ b.passed))) in
          let post_size = length-append post (cur ∷ b.passed) in
          let rest =
            pick_next_task-Waits n b.left y (post ++ (cur ∷ b.passed)) s'
              (Chain-congr s.task s'.task x (b.left ++ (y ∷ (post ++ (cur ∷ b.passed)))) x links
                from_x)
              (omega arith) run' w in
          omega arith
    ]

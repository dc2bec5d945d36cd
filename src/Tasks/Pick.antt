-- ===== src/Tasks/Pick.antt =====
-- core/tasks/sched.c: round robin. pick_next_task takes the first ready task behind the current one
-- in the run queue.
use bomboclaat_os.Base.{
  ℕ, zero, suc, ◌+◌, ◌≤◌, ◌<◌, ◌≡◌, refl, sym, ap, ◌∙◌, inl, inr, Bool, true, false, not, ◌&&◌,
  ◌||◌, false≢true, List, [], ◌∷◌, ◌++◌, ◌==◌, ==_iff, if◌then◌else◌, Bool-cases, length, arith,
}
use bomboclaat_os.Tasks.Store.{ready, running, state_eq, Task, Sys, max_tasks}
use bomboclaat_os.Tasks.Table.{pick_loop, yield_current, pick_next_task}
use bomboclaat_os.Tasks.Ring.{Chain, On}

abbrev pub can_run : Sys → ℕ → Bool
can_run s x = not (x == s.kernel_task) && state_eq (s.task x).state ready

-- The first task of a list that is ready and not the kernel's, and the kernel task without one.
abbrev pub first_ready : Sys → List ℕ → ℕ
first_ready s [] = s.kernel_task
first_ready s (x ∷ xs) = if can_run s x then x else first_ready s xs

abbrev any_ready : Sys → List ℕ → Bool
any_ready s [] = false
any_ready s (x ∷ xs) = can_run s x || any_ready s xs

pick_loop_some : (rounds x : ℕ) (s : Sys) → can_run s x ≡ true → pick_loop (suc rounds) x s ≡ x
unfolding pick_loop
pick_loop_some rounds x s h = rw h

pick_loop_next :
    (rounds x : ℕ) (s : Sys)
    → can_run s x ≡ false
    → pick_loop (suc rounds) x s ≡ pick_loop rounds (s.task x).next s
unfolding pick_loop
pick_loop_next rounds x s h = rw h

pick_loop-zero : (x : ℕ) (s : Sys) → pick_loop zero x s ≡ s.kernel_task
unfolding pick_loop
pick_loop-zero x s = refl

-- A ready task on the way is found, if there are rounds enough.
pick_loop-first_ready :
    (xs : List ℕ) (rounds a b : ℕ) (s : Sys)
    → length xs < rounds
    → Chain s.task a xs b
    → any_ready s (xs ++ (b ∷ [])) ≡ true
    → pick_loop rounds (s.task a).next s ≡ first_ready s (xs ++ (b ∷ []))
pick_loop-first_ready xs zero a b s lt c h = absurd (omega arith)
pick_loop-first_ready [] (suc rounds) a b s lt c h =
    let run : can_run s b ≡ true = ground arith in rw (c, run) (pick_loop_some rounds b s run)
pick_loop-first_ready (x ∷ xs) (suc rounds) a b s lt c h = elim (Bool-cases (can_run s x)) [
  | inl run ↦ rw (c.0, run) (pick_loop_some rounds x s run)
  | inr not_run ↦
      rw (c.0, not_run)
        (pick_loop_next rounds x s not_run
          ∙ pick_loop-first_ready xs rounds x b s (omega arith) c.1 (rw not_run at h))
]

On-append : (y : ℕ) (xs : List ℕ) (b : ℕ) → On y (b ∷ xs) → On y (xs ++ (b ∷ []))
On-append y [] b h = h
On-append y (x ∷ xs) b (inl e) = inr (On-append y xs b (inl e))
On-append y (x ∷ xs) b (inr (inl e)) = inl e
On-append y (x ∷ xs) b (inr (inr m)) = inr (On-append y xs b (inr m))

none_can_run :
    (s : Sys) (l : List ℕ)
    → any_ready s l ≡ false
    → (first_ready s l ≡ s.kernel_task) × ((y : ℕ) → On y l → can_run s y ≡ false)
none_can_run s [] h = (refl, λ y m. absurd m)
none_can_run s (x ∷ xs) h = elim (Bool-cases (can_run s x)) [
  | inl run ↦ absurd (false≢true (sym h ∙ rw run))
  | inr not_run ↦
      let (e, all) = none_can_run s xs (rw not_run at h) in
      (rw not_run e, (λ y. elim [ inl same ↦ ap (can_run s) same ∙ not_run | inr m ↦ all y m ]))
]

-- The successor of a node of the chain is on the chain, or its end.
Chain-next :
    (task : ℕ → Task) (a : ℕ) (xs : List ℕ) (b y : ℕ)
    → Chain task a xs b
    → On y (a ∷ xs)
    → On (task y).next (b ∷ xs)
Chain-next task a [] b y c (inl e) = inl (ap (λ p. (task p).next) e ∙ c)
Chain-next task a [] b y c (inr m) = absurd m
Chain-next task a (x ∷ xs) b y c (inl e) = inr (inl (ap (λ p. (task p).next) e ∙ c.0))
Chain-next task a (x ∷ xs) b y c (inr m) = widen (Chain-next task x xs b y c.1 m)
  where
    widen : On (task y).next (b ∷ xs) → On (task y).next (b ∷ x ∷ xs)
    widen (inl e) = inl e
    widen (inr m) = inr (inr m)

pick_loop_idle :
    (rounds x : ℕ) (l : List ℕ) (s : Sys)
    → ((y : ℕ) → On y l → can_run s y ≡ false)
    → ((y : ℕ) → On y l → On (s.task y).next l)
    → On x l
    → pick_loop rounds x s ≡ s.kernel_task
pick_loop_idle zero x l s none_runs closed m = pick_loop-zero x s
pick_loop_idle (suc rounds) x l s none_runs closed m =
    pick_loop_next rounds x s (none_runs x m)
    ∙ pick_loop_idle rounds _ l s none_runs closed (closed x m)

-- Making the running task ready moves no link.
record SameLinks (s s' : Sys) : Type 0 where
  next : (p : ℕ) → (s'.task p).next ≡ (s.task p).next
  current : s'.current_task ≡ s.current_task
  kernel : s'.kernel_task ≡ s.kernel_task

yield_current-SameLinks : (s : Sys) → SameLinks s (yield_current s)
unfolding yield_current
yield_current-SameLinks s = elim (Bool-cases (state_eq (s.task s.current_task).state running)) [
  | inl runs ↦ rw runs (record {
    next = λ p. elim (Bool-cases (s.current_task == p)) [
      | inl e ↦ rw e (ap (λ q. (s.task q).next) ((==_iff s.current_task p).0 e))
      | inr e ↦ rw e refl
    ];
    current = refl;
    kernel = refl;
  })
  | inr other ↦ rw other (record { next = λ p. refl; current = refl; kernel = refl })
]

pub Chain-congr :
    (task task' : ℕ → Task) (a : ℕ) (xs : List ℕ) (b : ℕ)
    → ((p : ℕ) → (task' p).next ≡ (task p).next)
    → Chain task a xs b
    → Chain task' a xs b
Chain-congr task task' a [] b same c = same a ∙ c
Chain-congr task task' a (x ∷ xs) b same c = (same a ∙ c.0, Chain-congr task task' x xs b same c.1)

pick_loop-ring :
    (xs : List ℕ) (rounds : ℕ) (b : ℕ) (s : Sys)
    → Chain s.task b xs b
    → length xs < rounds
    → pick_loop rounds (s.task b).next s ≡ first_ready s (xs ++ (b ∷ []))
pick_loop-ring xs rounds b s c lt = elim (Bool-cases (any_ready s (xs ++ (b ∷ [])))) [
  | inl some_run ↦ pick_loop-first_ready xs rounds b b s lt c some_run
  | inr none_run ↦
      let (e, all) = none_can_run s (xs ++ (b ∷ [])) none_run in
      pick_loop_idle rounds (s.task b).next (b ∷ xs) s (λ y m. all y (On-append y xs b m))
        (λ y m. Chain-next s.task b xs b y c m) (Chain-next s.task b xs b b c (inl refl))
      ∙ sym e
]

-- With the run queue a ring, `xs` the tasks behind the current one, pick_next_task returns the
-- first of them that is ready, kernel task aside; failing that the current one, if it is ready
-- still; failing that the kernel task. What changes is that a running current task is made ready.
pub pick_next_task-first_ready :
    (xs : List ℕ) (s : Sys)
    → Chain s.task s.current_task xs s.current_task
    → length xs ≤ max_tasks
    → let s' = yield_current s in
      pick_next_task s ≡ (first_ready s' (xs ++ (s.current_task ∷ [])), s')
unfolding pick_next_task
pick_next_task-first_ready xs s c le =
    let t = yield_current s in
    let same = yield_current-SameLinks s in
    let ring : Chain t.task t.current_task xs t.current_task =
      rw (same.current) (Chain-congr s.task t.task s.current_task xs s.current_task same.next c) in
    ap (λ n. (n, t)) (pick_loop-ring xs (max_tasks + 2) t.current_task t ring (omega arith))
    ∙ ap (λ (b : ℕ). (first_ready t (xs ++ (b ∷ [])), t)) same.current

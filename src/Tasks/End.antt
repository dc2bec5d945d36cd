-- ===== src/Tasks/End.antt =====
-- core/tasks/tasks.c: task_terminate.
use bomboclaat_os.Base.{
  ℕ, ◌≡◌, refl, sym, ap, ◌∙◌, ◌≢◌, inl, inr, Bool, true, false, not, ◌&&◌, [], ◌++◌, ◌==◌, ==_iff,
  ==_false, if◌then◌else◌, Bool-cases, false≢true, arith,
}
use bomboclaat_os.Tasks.Store.{TaskState, ready, blocked, zombie, state_eq, Sys}
use bomboclaat_os.Tasks.Life.{close_files, ended, adopt, wake_parent, become_zombie, task_terminate}
use bomboclaat_os.Tasks.Ring.{Avoids, On}
use bomboclaat_os.Tasks.Adopt.{adopt-Adopted}

-- The states once `t` has ended: it is a zombie, and its parent is ready if it was blocked.
abbrev pub state_after : ℕ → Sys → ℕ → TaskState
state_after t s p =
    let old = (s.task p).state in
    if t == p
    then zombie
    else if ((s.task t).parent == p) && (not (p == 0) && state_eq old blocked)
    then ready
    else old

-- What ends with the task `t`, and what goes on.
pub record Terminated (t code : ℕ) (s s' : Sys) : Type 0 where
  pub states : (p : ℕ) → (s'.task p).state ≡ state_after t s p
  pub exit_code : (s'.task t).exit_code ≡ code
  pub pending : (s'.task t).pending_signal ≡ 0
  pub children : (s'.task t).children ≡ []
  pub kernel_children :
      (s'.task s.kernel_task).children ≡ (s.task s.kernel_task).children ++ (s.task t).children
  pub orphans : (p : ℕ) → On p (s.task t).children → (s'.task p).parent ≡ s.kernel_task
  pub kernel : s'.kernel_task ≡ s.kernel_task
  pub current : s'.current_task ≡ s.current_task

ended_lem :
    (t code : ℕ) (s : Sys)
    → let s1 = ended t code s in
      ((s1.task t).state ≡ zombie)
      × ((s1.task t).exit_code ≡ code)
      × ((s1.task t).pending_signal ≡ 0)
      × ((s1.task t).parent ≡ (s.task t).parent)
      × ((p : ℕ) → (s1.task p).children ≡ (s.task p).children)
      × ((p : ℕ) → p ≢ t → (s1.task p).state ≡ (s.task p).state)
      × (s1.kernel_task ≡ s.kernel_task)
      × (s1.current_task ≡ s.current_task)
unfolding ended close_files become_zombie
ended_lem t code s =
    let self = (==_iff t t).1 refl in
    (
      rw self refl,
      rw self refl,
      rw self refl,
      rw self refl,
      (λ p. elim (Bool-cases (t == p)) [
        | inl e ↦ rw (e, self) (ap (λ q. (s.task q).children) ((==_iff t p).0 e))
        | inr ne ↦ rw ne refl
      ]),
      (λ p h. let ne = ==_false t p (λ e. h (sym e)) in rw ne refl),
      refl,
      refl,
    )

wake_parent_lem :
    (t : ℕ) (s : Sys)
    → let s' = wake_parent t s in
      ((p : ℕ) → (s'.task p).exit_code ≡ (s.task p).exit_code)
      × ((p : ℕ) → (s'.task p).pending_signal ≡ (s.task p).pending_signal)
      × ((p : ℕ) → (s'.task p).children ≡ (s.task p).children)
      × ((p : ℕ) → (s'.task p).parent ≡ (s.task p).parent)
      × (s'.kernel_task ≡ s.kernel_task)
      × (s'.current_task ≡ s.current_task)
      × ((p : ℕ)
          → (s'.task p).state ≡ (
              if (s.task t).parent == p
              then if not (p == 0) && state_eq (s.task p).state blocked
                then ready
                else (s.task p).state
              else (s.task p).state))
unfolding wake_parent
wake_parent_lem t s = (
  (λ p. ground arith),
  (λ p. ground arith),
  (λ p. ground arith),
  (λ p. ground arith),
  ground arith,
  ground arith,
  (λ p. woken p),
)
  where
    woken :
        (p : ℕ)
        → ((wake_parent t s).task p).state ≡ (
            if (s.task t).parent == p
            then if not (p == 0) && state_eq (s.task p).state blocked
              then ready
              else (s.task p).state
            else (s.task p).state)
    woken p =
        let q = (s.task t).parent in
        let test = not (q == 0) && state_eq (s.task q).state blocked in
        elim (Bool-cases ((s.task t).parent == p)) [
          | inl e ↦
              let same : (s.task t).parent ≡ p = (==_iff _ p).0 e in
              let self = (==_iff q q).1 refl in
              rw (← same)
                (elim (Bool-cases test) [ inl b ↦ rw (b, self) refl | inr b ↦ rw (b, self) refl ])
          | inr ne ↦ elim (Bool-cases test) [
            | inl b ↦ rw (ne, wake_parent, b, ne) refl
            | inr b ↦ rw (ne, wake_parent, b) refl
          ]
        ]

if_same : (a b : Bool) (x y : TaskState) → (if a then if b && false then x else y else y) ≡ y
if_same true true x y = refl
if_same true false x y = refl
if_same false b x y = refl

if_and :
    (a b : Bool) (x y : TaskState)
    → (if a then if b then x else y else y) ≡ (if a && b then x else y)
if_and true b x y = refl
if_and false b x y = refl

states_lem :
    (t : ℕ) (s s2 s3 : Sys)
    → (s2.task t).state ≡ zombie
    → ((p : ℕ) → p ≢ t → (s2.task p).state ≡ (s.task p).state)
    → (s2.task t).parent ≡ (s.task t).parent
    → ((p : ℕ)
        → (s3.task p).state ≡ (
            if (s2.task t).parent == p
            then if not (p == 0) && state_eq (s2.task p).state blocked
              then ready
              else (s2.task p).state
            else (s2.task p).state))
    → (p : ℕ) → (s3.task p).state ≡ state_after t s p
states_lem t s s2 s3 st os pa ws p = elim (Bool-cases (t == p)) [
  | inl e ↦
      let same : t ≡ p = (==_iff t p).0 e in
      let z : (s2.task p).state ≡ zombie = ap (λ q. (s2.task q).state) (sym same) ∙ st in
      ws p ∙ rw (e, z) (if_same ((s2.task t).parent == p) (not (p == 0)) ready zombie)
  | inr ne ↦
      let o = os p (λ h. false≢true (sym ne ∙ (==_iff t p).1 (sym h))) in
      ws p
      ∙ rw (ne, pa, o)
          (if_and ((s.task t).parent == p) (not (p == 0) && state_eq (s.task p).state blocked) ready
            (s.task p).state)
]

-- On any task but null, the kernel task and a zombie, and which is not its own child,
-- task_terminate makes a zombie with that exit code and no pending signal; its children go to the
-- end of the kernel task's list, in their order, and are the kernel task's; a parent blocked in
-- waitpid becomes ready, and no other task changes its state.
pub task_terminate-Terminated :
    (t code : ℕ) (s : Sys)
    → t ≢ 0
    → t ≢ s.kernel_task
    → (s.task t).state ≢ zombie
    → Avoids t (s.task t).children
    → Terminated t code s (task_terminate t code s)
unfolding task_terminate
task_terminate-Terminated t code s n0 nk nz out =
    let a : (t == 0) ≡ false = ==_false t 0 n0 in
    let b : (t == s.kernel_task) ≡ false = ==_false t _ nk in
    let c : state_eq (s.task t).state zombie ≡ false = ground arith in
    let s1 = ended t code s in
    let (st, ex, pe, pa, ch, os, ke, cu) = ended_lem t code s in
    let ad = adopt-Adopted t (s1.task t).children s1 (λ e. nk (e ∙ ke)) refl in
    let s2 = adopt t (s1.task t).children s1 in
    let (wx, wp, wc, wpa, wk, wcu, ws) = wake_parent_lem t s2 in
    let kids : (s2.task s.kernel_task).children
        ≡ (s.task s.kernel_task).children ++ (s.task t).children =
      ap (λ k. (s2.task k).children) (sym ke)
      ∙ ad.kernel_children
      ∙ ap (λ k. (s1.task k).children ++ (s1.task t).children) ke
      ∙ ap (λ l. l ++ (s1.task t).children) (ch s.kernel_task)
      ∙ ap (λ l. (s.task s.kernel_task).children ++ l) (ch t) in
    rw (a, b, c)
      (record {
        states =
            states_lem t s s2 (wake_parent t s2) (ad.rest.state t ∙ st)
              (λ p ne. ad.rest.state p ∙ os p ne) (ad.others t (rw (ch t) out) ∙ pa) ws;
        exit_code = wx t ∙ ad.rest.exit_code t ∙ ex;
        pending = wp t ∙ ad.rest.pending t ∙ pe;
        children = wc t ∙ ad.children;
        kernel_children = wc s.kernel_task ∙ kids;
        orphans = λ p m. wpa p ∙ ad.orphans p (rw (ch t) m) ∙ ke;
        kernel = wk ∙ ad.rest.kernel ∙ ke;
        current = wcu ∙ ad.rest.current ∙ cu;
      })

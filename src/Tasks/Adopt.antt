-- ===== src/Tasks/Adopt.antt =====
-- core/tasks/tasks.c: the children of a task that ends go to the kernel task, in their order.
use bomboclaat_os.Base.{
  ℕ, ◌≡◌, refl, sym, ap, ◌∙◌, ◌≢◌, ◌⊎◌, inl, inr, true, false, List, [], ◌∷◌, ◌++◌, ◌==◌, ==_iff,
  ==_false, if◌then◌else◌, Bool-cases, append-nil, append_assoc, arith,
}
use bomboclaat_os.Tasks.Store.{Task, Sys, modify, list_del, del_child, add_child, set_parent}
use bomboclaat_os.Tasks.Life.{adopt_one, adopt}
use bomboclaat_os.Tasks.Ring.{Avoids, On}

-- What all rounds leave alone.
pub record SameRest (s s' : Sys) : Type 0 where
  pub state : (p : ℕ) → (s'.task p).state ≡ (s.task p).state
  pub exit_code : (p : ℕ) → (s'.task p).exit_code ≡ (s.task p).exit_code
  pub pending : (p : ℕ) → (s'.task p).pending_signal ≡ (s.task p).pending_signal
  pub next : (p : ℕ) → (s'.task p).next ≡ (s.task p).next
  pub fds : (p : ℕ) → (s'.task p).fd_table ≡ (s.task p).fd_table
  pub kernel : s'.kernel_task ≡ s.kernel_task
  pub current : s'.current_task ≡ s.current_task
  pub files : s'.files ≡ s.files

-- One write to the links of `p` changes nothing else.
modify_rest :
    (p : ℕ) (f : Task → Task) (s : Sys)
    → ((t : Task)
        → ((f t).state ≡ t.state)
          × ((f t).exit_code ≡ t.exit_code)
          × ((f t).pending_signal ≡ t.pending_signal)
          × ((f t).next ≡ t.next)
          × ((f t).fd_table ≡ t.fd_table))
    → SameRest s (modify p f s)
modify_rest p f s h = record {
  state = λ q. ground (arith, h (s.task p));
  exit_code = λ q. ground (arith, h (s.task p));
  pending = λ q. ground (arith, h (s.task p));
  next = λ q. ground (arith, h (s.task p));
  fds = λ q. ground (arith, h (s.task p));
  kernel = refl;
  current = refl;
  files = refl;
}

SameRest-trans : {a b c : Sys} → SameRest a b → SameRest b c → SameRest a c
SameRest-trans x y = record {
  state = λ q. y.state q ∙ x.state q;
  exit_code = λ q. y.exit_code q ∙ x.exit_code q;
  pending = λ q. y.pending q ∙ x.pending q;
  next = λ q. y.next q ∙ x.next q;
  fds = λ q. y.fds q ∙ x.fds q;
  kernel = y.kernel ∙ x.kernel;
  current = y.current ∙ x.current;
  files = y.files ∙ x.files;
}

adopt_one-SameRest : (t c : ℕ) (s : Sys) → SameRest s (adopt_one t c s)
unfolding adopt_one
adopt_one-SameRest t c s =
    let s1 = modify t (del_child c) s in
    let s2 = modify c (set_parent s.kernel_task) s1 in
    SameRest-trans (modify_rest t (del_child c) s (λ k. (refl, refl, refl, refl, refl))) (
      SameRest-trans
        (modify_rest c (set_parent s.kernel_task) s1 (λ k. (refl, refl, refl, refl, refl)))
        (modify_rest s.kernel_task (add_child c) s2 (λ k. (refl, refl, refl, refl, refl))))

On-or_Avoids : (p : ℕ) (cs : List ℕ) → On p cs ⊎ Avoids p cs
On-or_Avoids p [] = inr tt
On-or_Avoids p (c ∷ cs) = elim (Bool-cases (c == p)) [
  | inl e ↦ inl (inl (sym ((==_iff c p).0 e)))
  | inr ne ↦ elim (On-or_Avoids p cs) [ inl m ↦ inl (inr m) | inr out ↦ inr (ground arith, out) ]
]

list_del-head : (c : ℕ) (cs : List ℕ) → list_del c (c ∷ cs) ≡ cs
unfolding list_del
list_del-head c cs = let self = (==_iff c c).1 refl in rw self refl

adopt_one-links :
    (t c : ℕ) (s : Sys)
    → t ≢ s.kernel_task
    → let s' = adopt_one t c s in
      ((s'.task t).children ≡ list_del c (s.task t).children)
      × ((s'.task s.kernel_task).children ≡ (s.task s.kernel_task).children ++ (c ∷ []))
      × ((p : ℕ) → (s'.task p).parent ≡ (if c == p then s.kernel_task else (s.task p).parent))
unfolding adopt_one
adopt_one-links t c s ne = (ground arith, ground arith, λ p. ground arith)

-- What the loop over the children `cs` of `t` does.
pub record Adopted (t : ℕ) (cs : List ℕ) (s s' : Sys) : Type 0 where
  pub rest : SameRest s s'
  pub children : (s'.task t).children ≡ []
  pub kernel_children : (s'.task s.kernel_task).children ≡ (s.task s.kernel_task).children ++ cs
  pub orphans : (p : ℕ) → On p cs → (s'.task p).parent ≡ s.kernel_task
  pub others : (p : ℕ) → Avoids p cs → (s'.task p).parent ≡ (s.task p).parent

pub adopt-Adopted :
    (t : ℕ) (cs : List ℕ) (s : Sys)
    → t ≢ s.kernel_task
    → (s.task t).children ≡ cs
    → Adopted t cs s (adopt t cs s)
unfolding adopt adopt_one
adopt-Adopted t [] s ne e = record {
  rest = record {
    state = λ p. refl;
    exit_code = λ p. refl;
    pending = λ p. refl;
    next = λ p. refl;
    fds = λ p. refl;
    kernel = refl;
    current = refl;
    files = refl;
  };
  children = e;
  kernel_children = sym (append-nil _);
  orphans = λ p m. absurd m;
  others = λ p m. refl;
}
adopt-Adopted t (c ∷ cs) s ne e =
    let same = adopt_one-SameRest t c s in
    let (own, kernels, parents) = adopt_one-links t c s ne in
    let left = list_del-head c cs in
    let a =
      adopt-Adopted t cs (adopt_one t c s) (λ h. ne (h ∙ same.kernel))
        (own ∙ ap (list_del c) e ∙ left) in
    record {
      rest = SameRest-trans same a.rest;
      children = a.children;
      kernel_children =
          (rw (same.kernel) at (a.kernel_children))
          ∙ ap (λ l. l ++ cs) kernels
          ∙ append_assoc _ (c ∷ []) cs;
      orphans = λ p. elim [
        | inl hit ↦
            let e' : (c == p) ≡ true = (==_iff c p).1 (sym hit) in
            elim (On-or_Avoids p cs) [
              | inl m ↦ a.orphans p m ∙ same.kernel
              | inr out ↦ a.others p out ∙ parents p ∙ rw e' refl
            ]
        | inr m ↦ a.orphans p m ∙ same.kernel
      ];
      others = λ p out.
          let e' : (c == p) ≡ false = ==_false c p out.0 in
          a.others p out.1 ∙ parents p ∙ rw e' refl;
    }

-- ===== src/Tasks/Ring.antt =====
-- core/tasks/tasks.c: the run queue as a ring. unlink_from_runqueue takes a task out of it, and
-- task_link puts one in behind the kernel task.
use bomboclaat_os.Base.{
  ℕ, zero, suc, ◌+◌, ◌≤◌, ◌<◌, ◌≡◌, refl, sym, ◌≢◌, ◌⊎◌, true, false, some, List, [], ◌∷◌, ◌++◌,
  ◌==◌, ==_iff, ==_false, length, arith,
}
use bomboclaat_os.Tasks.Store.{Task, Sys, max_tasks, put_task, modify}
use bomboclaat_os.Tasks.Table.{unlink_loop, unlink_from_runqueue}

-- Following `next` from `a` leads through `xs` to `b`.
abbrev pub Chain : (ℕ → Task) → ℕ → List ℕ → ℕ → Type 0
Chain task a [] b = (task a).next ≡ b
Chain task a (x ∷ xs) b = ((task a).next ≡ x) × Chain task x xs b

-- `a` is none of the list.
abbrev pub Avoids : ℕ → List ℕ → Type 0
Avoids a [] = Unit {0}
Avoids a (x ∷ xs) = (x ≢ a) × Avoids a xs

-- `y` is one of the list.
abbrev pub On : ℕ → List ℕ → Type 0
On y [] = ⊥
On y (x ∷ xs) = (y ≡ x) ⊎ On y xs

abbrev pub Distinct : List ℕ → Type 0
Distinct [] = Unit {0}
Distinct (x ∷ xs) = Avoids x xs × Distinct xs

-- The run queue holds the kernel task and the tasks `xs`.
abbrev pub IsRing : Sys → List ℕ → Type 0
IsRing s xs = Chain s.task s.kernel_task xs s.kernel_task × Distinct (s.kernel_task ∷ xs)

-- A write to a node that the chain does not start from or pass through leaves it as it is.
Chain-frame :
    (task : ℕ → Task) (p : ℕ) (t : Task) (a : ℕ) (xs : List ℕ) (b : ℕ)
    → a ≢ p
    → Avoids p xs
    → Chain task a xs b
    → Chain (put_task p t task) a xs b
Chain-frame task p t a [] b ne out c = let e = ==_false p a (λ e. ne (sym e)) in rw e c
Chain-frame task p t a (x ∷ xs) b ne out c =
    let e = ==_false p a (λ e. ne (sym e)) in
    (rw e c.0, Chain-frame task p t x xs b out.0 out.1 c.1)

Avoids-append : (a : ℕ) (xs ys : List ℕ) → Avoids a (xs ++ ys) → Avoids a xs × Avoids a ys
Avoids-append a [] ys h = (tt, h)
Avoids-append a (x ∷ xs) ys h = let (l, r) = Avoids-append a xs ys h.1 in ((h.0, l), r)

Avoids-drop :
    (a : ℕ) (pre : List ℕ) (v : ℕ) (post : List ℕ)
    → Avoids a (pre ++ (v ∷ post))
    → Avoids a (pre ++ post)
Avoids-drop a [] v post h = h.1
Avoids-drop a (x ∷ pre) v post h = (h.0, Avoids-drop a pre v post h.1)

Distinct-drop :
    (pre : List ℕ) (v : ℕ) (post : List ℕ) → Distinct (pre ++ (v ∷ post)) → Distinct (pre ++ post)
Distinct-drop [] v post h = h.1
Distinct-drop (x ∷ pre) v post h = (Avoids-drop x pre v post h.0, Distinct-drop pre v post h.1)

-- The write that takes the victim out: the node before it gets its successor.
skip :
    (task : ℕ → Task) (node victim b : ℕ) (post : List ℕ)
    → Avoids node post
    → Chain task victim post b
    → Chain (put_task node (record (task node) { next = (task victim).next }) task) node post b
skip task node victim b [] out c = let self = (==_iff node node).1 refl in rw self c
skip task node victim b (y ∷ ys) out c =
    let self = (==_iff node node).1 refl in
    (rw self c.0, Chain-frame task node _ y ys b out.0 out.1 c.1)

-- What unlink_loop leaves when it started from `node` with the nodes `pre` before the victim.
record Unlinked (s : Sys) (node : ℕ) (pre post : List ℕ) (s' : Sys) : Type 0 where
  chain : Chain s'.task node (pre ++ post) s.kernel_task
  others : (q : ℕ) → Avoids q (node ∷ pre) → s'.task q ≡ s.task q
  kernel : s'.kernel_task ≡ s.kernel_task

unlink_loop-Unlinked :
    (fuel victim node : ℕ) (pre post : List ℕ) (s : Sys)
    → length pre < fuel
    → Chain s.task node (pre ++ (victim ∷ post)) s.kernel_task
    → Distinct (node ∷ pre ++ (victim ∷ post))
    → Avoids s.kernel_task (pre ++ (victim ∷ post))
    → (s' : Sys) × (unlink_loop fuel victim node s ≡ some s') × Unlinked s node pre post s'
unfolding unlink_loop
unlink_loop-Unlinked zero victim node pre post s lt c d k = absurd (omega arith)
unlink_loop-Unlinked (suc fuel) victim node [] post s lt c d k =
    let hit : ((s.task node).next == victim) ≡ true = (==_iff _ _).1 c.0 in
    let new = λ (t : Task). record t { next = (s.task victim).next } in
    (
      modify node new s,
      rw hit,
      record {
        chain = skip s.task node victim s.kernel_task post d.0.1 c.1;
        others = λ q out. let e = ==_false node q out.0 in rw e refl;
        kernel = refl;
      },
    )
unlink_loop-Unlinked (suc fuel) victim node (x ∷ pre) post s lt c d k =
    let out = (Avoids-append x pre (victim ∷ post) d.1.0).1.0 in
    let ne : x ≢ victim = λ e. out (sym e) in
    let miss : ((s.task node).next == victim) ≡ false = rw (c.0) (==_false x victim ne) in
    let going : ((s.task node).next == s.kernel_task) ≡ false = rw (c.0) (==_false _ _ k.0) in
    let (s', e, u) = unlink_loop-Unlinked fuel victim x pre post s (omega arith) c.1 d.1 k.1 in
    let (lo, hi) = Avoids-append node (x ∷ pre) (victim ∷ post) d.0 in
    (
      s',
      rw (miss, going, c.0) e,
      record {
        chain = (rw (u.others node lo) (c.0), u.chain);
        others = λ q out. u.others q out.1;
        kernel = u.kernel;
      },
    )

-- unlink_from_runqueue takes a task of the run queue out of it and keeps the others in their
-- order; the loop ends within its rounds. (The queue holds 32 tasks besides the kernel's at most.)
pub unlink_from_runqueue-IsRing :
    (pre post : List ℕ) (victim : ℕ) (s : Sys)
    → IsRing s (pre ++ (victim ∷ post))
    → length pre ≤ max_tasks
    → (s' : Sys) × (unlink_from_runqueue victim s ≡ some s') × IsRing s' (pre ++ post)
unfolding unlink_from_runqueue
unlink_from_runqueue-IsRing pre post victim s (c, d) le =
    let (s', e, u) =
      unlink_loop-Unlinked (max_tasks + 1) victim s.kernel_task pre post s (omega arith) c d d.0 in
    (
      s',
      e,
      rw (u.kernel) (
        u.chain,
        (Avoids-drop s.kernel_task pre victim post d.0, Distinct-drop pre victim post d.1),
      ),
    )

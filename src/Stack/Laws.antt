-- ===== src/Stack/Laws.antt =====
-- core/memory/stack.c: what push, pop and top do on either side of the bounds.
use bomboclaat_os.Base.{
  ℕ, suc, ◌+◌, ◌-◌, ◌%◌, ◌^◌, ◌≤◌, ◌<◌, ◌≡◌, refl, ap, ◌∙◌, true, false, List, [], ◌∷◌, ◌==◌, leb,
  length, get_or, set, length-set, get_or-set_self, get_or-set_ne, arith,
}
use bomboclaat_os.Stack.{Stack, max_size, minus_one, stack_init, is_empty, is_full, push, pop, top}

-- `top` is an index of the array, and the array has its size.
pub record IsValid (s : Stack) : Type 0 where
  pub sized : length s.arr ≡ max_size
  pub inside : s.top < max_size

pub push_room :
    (s : Stack) (v : ℕ)
    → s.top + 1 < max_size
    → push s v ≡ record { arr = set s.arr (suc s.top) v; top = suc s.top }
unfolding push
push_room s v h =
    let room : leb (max_size - 1) s.top ≡ false = ground arith in
    let next : (s.top + 1) % 2 ^ 64 ≡ suc s.top = omega arith in rw (room, next)

pub push-full : (s : Stack) (v : ℕ) → max_size ≤ s.top + 1 → push s v ≡ s
unfolding push
push-full s v h = let full : leb (max_size - 1) s.top ≡ true = ground arith in rw full

pub pop_some :
    (s : Stack)
    → s.top < max_size
    → pop s ≡ (get_or s.arr s.top 0, record s { top = (s.top + 2 ^ 64 - 1) % 2 ^ 64 })
unfolding pop
pop_some s h = let some : (s.top == minus_one) ≡ false = ground arith in rw some

-- Pushing on a valid stack that is not full and popping again returns the pushed word, restores
-- `top`, and leaves all elements up to `top` as they were; `top` reads the pushed word too.
pub pop-push :
    (s : Stack) (v : ℕ)
    → IsValid s
    → is_full s ≡ false
    → let t = push s v in
      IsValid t
      × (top t ≡ v)
      × ((pop t).0 ≡ v)
      × ((pop t).1.top ≡ s.top)
      × ((i : ℕ) → i ≤ s.top → get_or (pop t).1.arr i 0 ≡ get_or s.arr i 0)
unfolding push pop top
pop-push s v h room =
    let lt : s.top < max_size - 1 = ground arith in
    let next : (s.top + 1) % 2 ^ 64 ≡ s.top + 1 = omega arith in
    let some : (s.top + 1 == minus_one) ≡ false = ground arith in
    let back : (s.top + 1 + 2 ^ 64 - 1) % 2 ^ 64 ≡ s.top = omega arith in
    let len = length-set s.arr (s.top + 1) v in
    let hit = get_or-set_self s.arr (s.top + 1) v 0 (omega (arith, h.sized)) in
    rw (room, next, some)
      (
        record { sized = omega (arith, len, h.sized); inside = omega arith },
        hit,
        hit,
        back,
        (λ i le. get_or-set_ne s.arr (s.top + 1) i v 0 (λ e. omega arith)),
      )

-- A run of pushes.
abbrev pub push_all : Stack → List ℕ → Stack
push_all s [] = s
push_all s (v ∷ vs) = push_all (push s v) vs

-- stack_init leaves `top` at (uintptr_t)-1, which counts as empty and, being unsigned, as full:
-- no run of pushes changes such a stack, and pop only returns -1.
pub stack_init_refuses :
    (s : Stack) (vs : List ℕ)
    → (is_empty (stack_init s) ≡ true)
      × (is_full (stack_init s) ≡ true)
      × (push_all (stack_init s) vs ≡ stack_init s)
      × (pop (stack_init s) ≡ (minus_one, stack_init s))
unfolding stack_init pop push
stack_init_refuses s vs = (refl, refl, refuse vs, refl)
  where
    refuse : (vs : List ℕ) → push_all (stack_init s) vs ≡ stack_init s
    refuse [] = refl
    refuse (v ∷ vs) = ap (λ t. push_all t vs) (stuck v) ∙ refuse vs
      where
        stuck : (v : ℕ) → push (stack_init s) v ≡ stack_init s
        stuck v = refl

-- ===== src/Stack.antt =====
-- core/memory/stack.c: a stack of 1024 words. `top` is a `uintptr_t`, so -1 is 2^64 - 1.
pub mod Laws
pub mod Tests
use bomboclaat_os.Base.{ℕ, ◌+◌, ◌-◌, ◌%◌, ◌^◌, Bool, List, ◌==◌, leb, if◌then◌else◌, get_or, set}

pub record Stack : Type 0 where
  pub arr : List ℕ
  pub top : ℕ

abbrev pub max_size : ℕ
max_size = 1024

-- `(uintptr_t)-1`
abbrev pub minus_one : ℕ
minus_one = 2 ^ 64 - 1

unfoldable pub stack_init : Stack → Stack
stack_init s = record s { top = minus_one }

unfoldable pub is_empty : Stack → Bool
is_empty s = s.top == minus_one

-- `stack_t->top >= MAX_SIZE - 1`, between unsigned numbers
unfoldable pub is_full : Stack → Bool
is_full s = leb (max_size - 1) s.top

unfoldable pub push : Stack → ℕ → Stack
unfolding is_full
push s value =
    let next = (s.top + 1) % 2 ^ 64 in
    if is_full s then s else record { arr = set s.arr next value; top = next }

unfoldable pub pop : Stack → ℕ × Stack
unfolding is_empty
pop s =
    if is_empty s
    then (minus_one, s)
    else (get_or s.arr s.top 0, record s { top = (s.top + 2 ^ 64 - 1) % 2 ^ 64 })

unfoldable pub top : Stack → ℕ
unfolding is_empty
top s = if is_empty s then minus_one else get_or s.arr s.top 0

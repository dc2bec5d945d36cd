-- ===== src/UserMemory/Break.antt =====
-- core/tasks/tasks.c: the break that task_sbrk sets.
use bomboclaat_os.Base.{
  ℕ, zero, suc, ◌+◌, ◌-◌, ◌/◌, ◌%◌, ◌^◌, ◌≤◌, ◌≡◌, refl, ◌⊎◌, inl, inr, ◌||◌, Option, none, some,
  ltb, if◌then◌else◌, Bool-cases, arith,
}
use bomboclaat_os.Base.Int.{ℤ, pos, negsuc}
use bomboclaat_os.UserMemory.Fresh.{Machine, drop_pages}
use bomboclaat_os.UserMemory.Heap.{
  user_heap_max, Mm, page_up, next_brk, Growth, grown, stopped, growth_panic, grow_pages,
  minus_one_64, task_sbrk,
}

-- The break lies in the heap, and the heap in the lower half of the addresses.
pub record IsHeap (mm : Mm) : Type 0 where
  pub above : mm.brk_start ≤ mm.brk
  pub below : mm.brk ≤ mm.brk_start + user_heap_max
  pub half : mm.brk_start + user_heap_max + 4096 ≤ 2 ^ 47

-- `b` is `a + z`.
abbrev pub IsSum : ℕ → ℤ → ℕ → Type 0
IsSum a (pos n) b = b ≡ a + n
IsSum a (negsuc n) b = b + n + 1 ≡ a

-- What next_brk may return.
abbrev pub BrkOutcome : Mm → ℤ → Option ℕ → Type 0
BrkOutcome mm z none =
    (b : ℕ) → IsSum mm.brk z b → mm.brk_start ≤ b → b ≤ mm.brk_start + user_heap_max → ⊥
BrkOutcome mm z (some b) =
    IsSum mm.brk z b × (mm.brk_start ≤ b) × (b ≤ mm.brk_start + user_heap_max)

-- The sum is refused exactly if it does not lie in the heap: no sum wraps unnoticed.
pub next_brk-BrkOutcome : (mm : Mm) (z : ℤ) → IsHeap mm → BrkOutcome mm z (next_brk mm z)
unfolding next_brk
next_brk-BrkOutcome mm (pos n) heap =
    let a = heap.above in
    let b = heap.below in
    let c = heap.half in
    elim (Bool-cases (
      ltb user_heap_max n
      || ltb ((mm.brk_start + user_heap_max) % 2 ^ 64) ((mm.brk + n) % 2 ^ 64))) [
        | inl refused ↦ rw refused (λ s e lo hi. ground arith)
        | inr fine ↦
            let small : n ≤ user_heap_max = ground arith in
            let no_wrap : (mm.brk + n) % 2 ^ 64 ≡ mm.brk + n = omega arith in
            let no_wrap' : (mm.brk_start + user_heap_max) % 2 ^ 64 ≡ mm.brk_start + user_heap_max =
              omega arith in
            let fits : mm.brk + n ≤ mm.brk_start + user_heap_max = ground arith in
            rw fine (no_wrap, omega arith, omega arith)
      ]
next_brk-BrkOutcome mm (negsuc n) heap =
    let a = heap.above in
    let b = heap.below in
    elim (Bool-cases (ltb mm.brk (n + 1) || ltb (mm.brk - (n + 1)) mm.brk_start)) [
      | inl refused ↦ rw refused (λ s e lo hi. ground arith)
      | inr fine ↦
          let lo : n + 1 ≤ mm.brk = ground arith in
          let start : mm.brk_start ≤ mm.brk - (n + 1) = ground arith in
          rw fine (omega arith, start, omega arith)
    ]

-- What task_sbrk may return, but for a panic: the old break, and the new one is the sum and lies in
-- the heap; or -1, and the break is the old one.
abbrev pub SbrkOutcome : Mm → ℤ → Option (ℕ × Mm × Machine) → Type 0
SbrkOutcome mm z none = Unit
SbrkOutcome mm z (some (r, mm', m')) =
    IsHeap mm'
    × (((r ≡ mm.brk) × IsSum mm.brk z mm'.brk × (mm'.brk_start ≡ mm.brk_start))
        ⊎ ((r ≡ minus_one_64) × (mm' ≡ mm)))

module _ (pml4 : ℕ) (mm : Mm) (heap : IsHeap mm) (z : ℤ) where
  moved :
      (b : ℕ) (m' : Machine)
      → BrkOutcome mm z (some b)
      → SbrkOutcome mm z (some (mm.brk, record mm { brk = b }, m'))
  moved b m' (sum, lo, hi) =
      (record { above = lo; below = hi; half = heap.half }, inl (refl, sum, refl))

  stayed : (m' : Machine) → SbrkOutcome mm z (some (minus_one_64, mm, m'))
  stayed m' = (heap, inr (refl, refl))

  shrunk :
      (b : ℕ)
      → BrkOutcome mm z (some b)
      → (o : Option Machine)
      → SbrkOutcome mm z
          (elim o [ none ↦ none | some m' ↦ some (mm.brk, record mm { brk = b }, m') ])
  shrunk b fine none = tt
  shrunk b fine (some m') = moved b m' fine

  undone :
      (o : Option Machine)
      → SbrkOutcome mm z (elim o [ none ↦ none | some m' ↦ some (minus_one_64, mm, m') ])
  undone none = tt
  undone (some m') = stayed m'

  widened :
      (b old : ℕ)
      → BrkOutcome mm z (some b)
      → (g : Growth)
      → SbrkOutcome mm z (elim g [
        | grown m' ↦ some (mm.brk, record mm { brk = b }, m')
        | stopped va m' ↦ elim (drop_pages ((va - old) / 4096) pml4 old m') [
          | none ↦ none
          | some m'' ↦ some (minus_one_64, mm, m'')
        ]
        | growth_panic ↦ none
      ])
  widened b old fine (grown m') = moved b m' fine
  widened b old fine (stopped va m') = undone (drop_pages ((va - old) / 4096) pml4 old m')
  widened b old fine growth_panic = tt

  decided :
      (m : Machine) (o : Option ℕ)
      → BrkOutcome mm z o
      → SbrkOutcome mm z (elim o [
        | none ↦ some (minus_one_64, mm, m)
        | some b ↦
            let old_page = page_up mm.brk in
            let new_page = page_up b in
            if ltb old_page new_page
            then elim (grow_pages ((new_page - old_page) / 4096) pml4 old_page m) [
              | grown m' ↦ some (mm.brk, record mm { brk = b }, m')
              | stopped va m' ↦ elim (drop_pages ((va - old_page) / 4096) pml4 old_page m') [
                | none ↦ none
                | some m'' ↦ some (minus_one_64, mm, m'')
              ]
              | growth_panic ↦ none
            ]
            else elim (drop_pages ((old_page - new_page) / 4096) pml4 new_page m) [
              | none ↦ none
              | some m' ↦ some (mm.brk, record mm { brk = b }, m')
            ]
      ])
  decided m none fine = stayed m
  decided m (some b) fine = elim (Bool-cases (ltb (page_up mm.brk) (page_up b))) [
    | inl more ↦ rw more (
        widened b (page_up mm.brk) fine
          (grow_pages ((page_up b - page_up mm.brk) / 4096) pml4 (page_up mm.brk) m))
    | inr less ↦
        rw less
          (shrunk b fine (drop_pages ((page_up mm.brk - page_up b) / 4096) pml4 (page_up b) m))
  ]

-- If the break lies in the heap, task_sbrk keeps it there: it returns the old break and the new one
-- is the old one plus the increment, or it returns -1 and the break stays. It may panic as
-- pmm_free_frame does.
pub task_sbrk-SbrkOutcome :
    (pml4 : ℕ) (increment : ℤ) (mm : Mm) (m : Machine)
    → IsHeap mm
    → SbrkOutcome mm increment (task_sbrk pml4 increment mm m)
unfolding task_sbrk
task_sbrk-SbrkOutcome pml4 (pos zero) mm m heap = (heap, inl (refl, omega arith, refl))
task_sbrk-SbrkOutcome pml4 (pos (suc n)) mm m heap =
    decided pml4 mm heap (pos (suc n)) m (next_brk mm (pos (suc n)))
      (next_brk-BrkOutcome mm (pos (suc n)) heap)
task_sbrk-SbrkOutcome pml4 (negsuc n) mm m heap =
    decided pml4 mm heap (negsuc n) m (next_brk mm (negsuc n))
      (next_brk-BrkOutcome mm (negsuc n) heap)

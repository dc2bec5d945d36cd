-- ===== src/UserMemory/Heap.antt =====
-- core/tasks/tasks.c: task_sbrk.
use bomboclaat_os.Base.{
  ℕ, zero, suc, ◌+◌, ◌-◌, ◌*◌, ◌/◌, ◌%◌, ◌^◌, ◌||◌, Option, none, some, ltb, if◌then◌else◌,
}
use bomboclaat_os.Base.Int.{ℤ, pos, negsuc}
use bomboclaat_os.UserMemory.Fresh.{
  Machine, mapped, no_frame, no_table, page_panic, new_page, drop_pages,
}

abbrev pub user_heap_max : ℕ
user_heap_max = 0x10000000

-- The fields of `mm_t` that are read here.
pub record Mm : Type 0 where
  pub brk_start : ℕ
  pub brk : ℕ
  pub stack_start : ℕ
  pub stack_limit : ℕ

-- `(x + PAGE_SIZE - 1) & ~(PAGE_SIZE - 1)`
abbrev pub page_up : ℕ → ℕ
page_up x = (x + 4095) % 2 ^ 64 / 4096 * 4096

-- The new break for an increment that is not 0; `none` is the result -1.
unfoldable pub next_brk : Mm → ℤ → Option ℕ
next_brk mm (pos n) =
    if ltb user_heap_max n || ltb ((mm.brk_start + user_heap_max) % 2 ^ 64) ((mm.brk + n) % 2 ^ 64)
    then none
    else some ((mm.brk + n) % 2 ^ 64)
next_brk mm (negsuc n) =
    if ltb mm.brk (n + 1) || ltb (mm.brk - (n + 1)) mm.brk_start
    then none
    else some (mm.brk - (n + 1))

pub data Growth : Type 0 where
  grown : Machine → Growth
  stopped : ℕ → Machine → Growth
  growth_panic : Growth

-- The loop that maps the new pages, with `rounds` of them left.
unfoldable pub grow_pages : (rounds pml4 va : ℕ) → Machine → Growth
grow_pages zero pml4 va m = grown m
grow_pages (suc rounds) pml4 va m = elim (new_page pml4 va 7 m) [
  | mapped frame m' ↦ grow_pages rounds pml4 (va + 4096) m'
  | no_frame m' ↦ stopped va m'
  | no_table m' ↦ stopped va m'
  | page_panic ↦ growth_panic
]

abbrev pub minus_one_64 : ℕ
minus_one_64 = 2 ^ 64 - 1

-- The result, `t->mm` and the machine; `none` is a panic.
unfoldable pub task_sbrk : (pml4 : ℕ) → ℤ → Mm → Machine → Option (ℕ × Mm × Machine)
unfolding next_brk grow_pages
task_sbrk pml4 (pos zero) mm m = some (mm.brk, mm, m)
task_sbrk pml4 increment mm m = elim (next_brk mm increment) [
  | none ↦ some (minus_one_64, mm, m)
  | some new_brk ↦
      let old_page = page_up mm.brk in
      let new_page = page_up new_brk in
      if ltb old_page new_page
      then elim (grow_pages ((new_page - old_page) / 4096) pml4 old_page m) [
        | grown m' ↦ some (mm.brk, record mm { brk = new_brk }, m')
        | stopped va m' ↦ elim (drop_pages ((va - old_page) / 4096) pml4 old_page m') [
          | none ↦ none
          | some m'' ↦ some (minus_one_64, mm, m'')
        ]
        | growth_panic ↦ none
      ]
      else elim (drop_pages ((old_page - new_page) / 4096) pml4 new_page m) [
        | none ↦ none
        | some m' ↦ some (mm.brk, record mm { brk = new_brk }, m')
      ]
]

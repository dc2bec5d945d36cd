-- ===== src/Userspace/To.antt =====
-- core/memory/userspace.c: copy_to_user against the translation of each single byte.
use bomboclaat_os.Base.{ℕ, ◌+◌, ◌<◌, ◌≡◌, ◌≢◌, ◌⊎◌, Option, none, some}
use bomboclaat_os.Base.Int.{ℤ, pos, minus_one}
use bomboclaat_os.Memtools.{Mem}
use bomboclaat_os.Userspace.Copy.{Context, user_page_translate}
use bomboclaat_os.Userspace.Paged.{InUser}

-- No two bytes of the range have the same place.
abbrev pub Distinct : (ℕ → Option ℕ) → (va len : ℕ) → Type 0
Distinct translate va len =
    (i j p : ℕ)
    → i < len
    → j < len
    → translate (va + i) ≡ some p
    → translate (va + j) ≡ some p
    → i ≡ j

-- `q` is not the place of a byte of the range.
abbrev pub Elsewhere : (ℕ → Option ℕ) → (va len : ℕ) → ℕ → Type 0
Elsewhere translate va len q = (i : ℕ) → i < len → translate (va + i) ≢ some q

-- What the loop may return for `len` bytes from `from` to `va`.
abbrev pub OutOutcome : (ℕ → Option ℕ) → (va from len : ℕ) → Mem → ℤ × Mem → Type 0
OutOutcome translate va from len mem (r, mem') =
    ((q : ℕ) → Elsewhere translate va len q → mem' q ≡ mem q)
    × (((r ≡ pos 0)
          × ((i : ℕ)
              → i < len
              → (p : ℕ) × (translate (va + i) ≡ some p) × (mem' p ≡ mem (from + i))))
        ⊎ ((r ≡ minus_one) × ((i : ℕ) × (i < len) × (translate (va + i) ≡ none))))

-- What copy_to_user may return: -1 and nothing is done, without a task or for a range outside the
-- user's addresses; or what the loop returns.
abbrev pub ToOutcome : Context → (dst src len : ℕ) → Mem → ℤ × Mem → Type 0
ToOutcome c dst src len mem res =
    ((pml4 : ℕ) × (c.current_pml4 ≡ some pml4)
      × InUser dst len
      × OutOutcome (user_page_translate c.hhdm_offset pml4 6 c.vm) dst src len mem res)
    ⊎ ((res ≡ (minus_one, mem)) × ((c.current_pml4 ≡ none) ⊎ (InUser dst len → ⊥)))

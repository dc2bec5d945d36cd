-- ===== src/Exec/Flags.antt =====
-- core/tasks/exec.c: the flags of the pages that elf_load maps.
use bomboclaat_os.Base.{
  ℕ, ◌/◌, ◌%◌, ◌^◌, ◌≡◌, refl, ◌∙◌, ◌⊎◌, inl, inr, Bool, true, false, ◌==◌, if◌then◌else◌, bit_or,
  arith,
}
use bomboclaat_os.Vmm.Tree.{AreFlags}
use bomboclaat_os.UserMemory.Growing.{writable-AreFlags}
use bomboclaat_os.Exec.Elf.{Phdr, executable}
use bomboclaat_os.Exec.Load.{write_bit, segment_flags, merged_flags}

-- The result of nx_flag: bit 63, or 0 where the processor does not know it.
abbrev pub IsNx : ℕ → Type 0
IsNx nx = (nx ≡ 0) ⊎ (nx ≡ 2 ^ 63)

five-AreFlags : AreFlags 5
five-AreFlags = record { low = omega arith; is_present = refl; small = refl }

-- Present, for the user, perhaps writable, and perhaps not executable.
or_flags-AreFlags :
    (a b : ℕ)
    → (a ≡ 0) ⊎ (a ≡ 2)
    → (b ≡ 0) ⊎ ((b ≡ 2) ⊎ (b ≡ 2 ^ 63))
    → AreFlags (bit_or (bit_or 5 a) b % 4096)
or_flags-AreFlags a b (inl e) (inl h) = rw (e, h) five-AreFlags
or_flags-AreFlags a b (inr e) (inl h) = rw (e, h) writable-AreFlags
or_flags-AreFlags a b (inl e) (inr (inl h)) = rw (e, h) writable-AreFlags
or_flags-AreFlags a b (inr e) (inr (inl h)) = rw (e, h) writable-AreFlags
or_flags-AreFlags a b (inl e) (inr (inr h)) = rw (e, h) five-AreFlags
or_flags-AreFlags a b (inr e) (inr (inr h)) = rw (e, h) writable-AreFlags

if_cases : (b : Bool) (x y : ℕ) → ((if b then x else y) ≡ x) ⊎ ((if b then x else y) ≡ y)
if_cases true x y = inl refl
if_cases false x y = inr refl

pub segment_flags-AreFlags :
    (nx : ℕ) (seg : Phdr) → IsNx nx → AreFlags (segment_flags nx seg % 4096)
segment_flags-AreFlags nx seg is_nx =
    or_flags-AreFlags (if seg.p_flags / 2 % 2 == 0 then 0 else 2) (if executable seg then 0 else nx)
      (if_cases (seg.p_flags / 2 % 2 == 0) 0 2)
      (elim (if_cases (executable seg) 0 nx) [
        | inl e ↦ inl e
        | inr e ↦ elim is_nx [ inl z ↦ inl (e ∙ z) | inr z ↦ inr (inr (e ∙ z)) ]
      ])

write_bit_cases : (x : ℕ) → (write_bit x ≡ 0) ⊎ (write_bit x ≡ 2)
write_bit_cases x = omega arith

pub merged_flags-AreFlags : (old flags : ℕ) → AreFlags (merged_flags old flags % 4096)
merged_flags-AreFlags old flags =
    or_flags-AreFlags (write_bit old) (write_bit flags) (write_bit_cases old)
      (elim (write_bit_cases flags) [ inl e ↦ inl e | inr e ↦ inr (inl e) ])

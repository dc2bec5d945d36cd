-- ===== src/Userspace/Tests.antt =====
-- core/memory/userspace.c: copies across the border of two pages.
use bomboclaat_os.Base.{
  ℕ, zero, suc, ◌+◌, ◌≡◌, refl, sym, ap, ◌∙◌, ◌↔◌, true, Option, some, [], arith, some-injective,
  if◌then◌else◌, ◌==◌,
}
use bomboclaat_os.Base.Int.{pos, minus_one}
use bomboclaat_os.Memtools.{Mem}
use bomboclaat_os.Vmm.{Tables, put_entry, vmm_resolve, resolve_pt, resolve_pd, resolve_pdpt}
use bomboclaat_os.Userspace.Copy.{
  Context, user_range_valid, user_page_translate, copy_from_loop, copy_from_user,
}
use bomboclaat_os.Userspace.Text.{copy_chunk, copy_string, copy_string_from_user}
use bomboclaat_os.Userspace.Paged.{InUser, user_range_valid_iff}
use bomboclaat_os.Userspace.From.{Apart}
use bomboclaat_os.Userspace.Line.{LineOutcome, copy_string_from_user-LineOutcome}

-- The pages at 0x5000 and 0x6000 are in the frames at 0xA000 and 0x8000.
abbrev two_pages : Tables
two_pages = put_entry 0x3000 0 0x4007 (
    put_entry 0x4000 0 0x5007 (
      put_entry 0x5000 0 0x6007 (put_entry 0x6000 5 0xA007 (put_entry 0x6000 6 0x8007 (λ t i. 0)))))

abbrev context : Context
context = record {
  hhdm_offset = 0xFFFF800000000000;
  current_pml4 = some 0x3000;
  vm = record {
    pmm = record { bitmap = []; total_frames = 0; used_frames = 0; usable_frames = 0 };
    entry = two_pages;
  };
}

-- The letter A before the border, and a 0 behind it.
abbrev letters : Mem
letters q = if q == 0xFFFF80000000AFFF then 65 else 0

abbrev place : ℕ → ℕ → Option ℕ
place need addr = user_page_translate 0xFFFF800000000000 0x3000 need context.vm addr

first_place : place 4 0x5FFF ≡ some 0xFFFF80000000AFFF
unfolding user_page_translate vmm_resolve resolve_pdpt resolve_pd resolve_pt
first_place = refl

second_place : place 4 0x6000 ≡ some 0xFFFF800000008000
unfolding user_page_translate vmm_resolve resolve_pdpt resolve_pd resolve_pt
second_place = refl

in_Apart : Apart (place 4) 0x5FFF 0xFFFFFFFFC0000000 2
in_Apart zero p lt h = let e = some-injective (sym first_place ∙ h) in omega arith
in_Apart (suc zero) p lt h = let e = some-injective (sym second_place ∙ h) in omega arith
in_Apart (suc (suc i)) p lt h = absurd (omega arith)

string_ends_in_second_page :
    (copy_string_from_user context 0xFFFFFFFFC0000000 0x5FFF 2 letters).0 ≡ pos 1
unfolding copy_string_from_user copy_string copy_chunk user_range_valid user_page_translate
    vmm_resolve resolve_pdpt resolve_pd resolve_pt
string_ends_in_second_page = refl

page_7000_is_missing : (copy_from_user context 0xFFFFFFFFC0000000 0x6FFF 2 letters).0 ≡ minus_one
unfolding copy_from_user copy_from_loop user_range_valid user_page_translate vmm_resolve
    resolve_pdpt resolve_pd resolve_pt
page_7000_is_missing = refl

user_range_valid_iff_example : (user_range_valid 0x7FFFFFFFFFFF 1 ≡ true) ↔ InUser 0x7FFFFFFFFFFF 1
user_range_valid_iff_example = user_range_valid_iff 0x7FFFFFFFFFFF 1

copy_string_from_user-LineOutcome_example :
    LineOutcome context 0xFFFFFFFFC0000000 0x5FFF 2 letters
      (copy_string_from_user context 0xFFFFFFFFC0000000 0x5FFF 2 letters)
copy_string_from_user-LineOutcome_example =
    copy_string_from_user-LineOutcome context 0xFFFFFFFFC0000000 0x5FFF 2 letters (omega arith)
      (omega arith)
      (λ pml4 e i p lt h. in_Apart i p lt (
        ap (λ m. user_page_translate 0xFFFF800000000000 m 4 context.vm (0x5FFF + i))
          (some-injective e)
        ∙ h))

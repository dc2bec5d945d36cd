-- ===== src/Exec/Tests.antt =====
-- core/tasks/exec.c: a program of one segment, whose address space begins empty.
use bomboclaat_os.Base.{
  ℕ, ◌+◌, ◌-◌, ◌^◌, ◌<◌, ◌≡◌, refl, ◌↔◌, ◌⊎◌, inl, inr, Bool-cases, some, List, [], ◌∷◌, ◌==◌,
  get_or, leb, if◌then◌else◌, arith,
}
use bomboclaat_os.Memtools.{Mem}
use bomboclaat_os.Vmm.Sample.{bare, bare-IsSpace}
use bomboclaat_os.UserMemory.{Machine}
use bomboclaat_os.Exec.Elf.{ehdr, phdr, shdr}
use bomboclaat_os.Exec.Validate.{
  ok, failed, enoexec, check_segments, elf_validate, elf_find_sigterm,
}
use bomboclaat_os.Exec.Load.{Layout, elf_load}
use bomboclaat_os.Exec.Program.{IsProgram}
use bomboclaat_os.Exec.Accept.{elf_validate_iff}
use bomboclaat_os.Exec.Sigterm.{HasSections, Found, names_section, elf_find_sigterm-Found}
use bomboclaat_os.Vmm.{put_entry, vmm_resolve, resolve_pt, resolve_pd, resolve_pdpt}
use bomboclaat_os.Userspace.{Context, user_page_translate}
use bomboclaat_os.Userspace.Paged.{user_page_translate-view}
use bomboclaat_os.Exec.Args.{exec_copy_args}
use bomboclaat_os.Exec.Argv.{IsPrivate}
use bomboclaat_os.Exec.Copied.{CopiedOutcome, exec_copy_args-CopiedOutcome}
use bomboclaat_os.Exec.Loaded.{LoadedOutcome, elf_load-LoadedOutcome}

-- The ELF header, and one segment at 0x401000 with 0x1800 bytes, 120 of them from the file.
abbrev small_elf : List ℕ
small_elf =
    127 ∷ 69 ∷ 76 ∷ 70 ∷ 2 ∷ 1 ∷ 1 ∷ 0 ∷ 0 ∷ 0 ∷ 0 ∷ 0 ∷ 0 ∷ 0 ∷ 0 ∷ 0 ∷ 2 ∷ 0 ∷ 62 ∷ 0 ∷ 1 ∷ 0 ∷ 0
    ∷ 0 ∷ 0 ∷ 16 ∷ 64 ∷ 0 ∷ 0 ∷ 0 ∷ 0 ∷ 0 ∷ 64 ∷ 0 ∷ 0 ∷ 0 ∷ 0 ∷ 0 ∷ 0 ∷ 0 ∷ 0 ∷ 0 ∷ 0 ∷ 0 ∷ 0 ∷ 0
    ∷ 0 ∷ 0 ∷ 0 ∷ 0 ∷ 0 ∷ 0 ∷ 64 ∷ 0 ∷ 56 ∷ 0 ∷ 1 ∷ 0 ∷ 64 ∷ 0 ∷ 0 ∷ 0 ∷ 0 ∷ 0 ∷ 1 ∷ 0 ∷ 0 ∷ 0 ∷ 5
    ∷ 0 ∷ 0 ∷ 0 ∷ 0 ∷ 0 ∷ 0 ∷ 0 ∷ 0 ∷ 0 ∷ 0 ∷ 0 ∷ 0 ∷ 16 ∷ 64 ∷ 0 ∷ 0 ∷ 0 ∷ 0 ∷ 0 ∷ 0 ∷ 16 ∷ 64 ∷ 0
    ∷ 0 ∷ 0 ∷ 0 ∷ 0 ∷ 120 ∷ 0 ∷ 0 ∷ 0 ∷ 0 ∷ 0 ∷ 0 ∷ 0 ∷ 0 ∷ 24 ∷ 0 ∷ 0 ∷ 0 ∷ 0 ∷ 0 ∷ 0 ∷ 0 ∷ 16 ∷ 0
    ∷ 0 ∷ 0 ∷ 0 ∷ 0 ∷ 0 ∷ []

abbrev memory : Mem
memory q = if leb 0x200000 q then get_or small_elf (q - 0x200000) 0 else 0

abbrev machine : Machine
machine = record { hhdm_offset = 0x100000; vm = bare; mem = memory }

abbrev layout : Layout
layout = record {
  code_start = 0;
  code_end = 0;
  data_start = 0;
  data_end = 0;
  brk_start = 0;
  brk = 0;
}

program_accepted : elf_validate 0x200000 120 memory ≡ ok
unfolding elf_validate check_segments ehdr phdr
program_accepted = refl

cut_program_refused : elf_validate 0x200000 119 memory ≡ failed enoexec
unfolding elf_validate check_segments ehdr phdr
cut_program_refused = refl

elf_validate_iff_example : (elf_validate 0x200000 120 memory ≡ ok) ↔ IsProgram 0x200000 120 memory
elf_validate_iff_example = elf_validate_iff 0x200000 120 memory

elf_find_sigterm-Found_example :
    let strsec = names_section 0x200000 memory in
    (HasSections 0x200000 120 memory strsec
      × Found
          (shdr (0x200000 + (ehdr 0x200000 memory).e_shoff) memory)
          (0x200000 + strsec.sh_offset)
          strsec.sh_size
          (ehdr 0x200000 memory).e_shnum
          0
          memory
          (elf_find_sigterm 0x200000 120 memory))
    ⊎ ((HasSections 0x200000 120 memory strsec → ⊥) × (elf_find_sigterm 0x200000 120 memory ≡ 0))
elf_find_sigterm-Found_example = elf_find_sigterm-Found 0x200000 120 memory

small_elf-IsProgram : IsProgram 0x200000 120 memory
small_elf-IsProgram = (elf_validate_iff 0x200000 120 memory).0 program_accepted

elf_load-LoadedOutcome_example :
    LoadedOutcome 0x200000 12288 memory (elf_load 0 0x200000 12288 layout machine)
elf_load-LoadedOutcome_example =
    elf_load-LoadedOutcome 0 0x200000 120 12288 layout machine small_elf-IsProgram (inl refl)
      bare-IsSpace

-- The page at 0x5000 is in the frame at 0xA000, and the path "/a" begins there.
abbrev caller : Context
caller = record {
  hhdm_offset = 0xFFFF800000000000;
  current_pml4 = some 0x3000;
  vm = record bare {
    entry = put_entry 0x3000 0 0x4007 (
        put_entry 0x4000 0 0x5007
          (put_entry 0x5000 0 0x6007 (put_entry 0x6000 5 0xA007 (λ t i. 0))));
  };
}

abbrev caller_memory : Mem
caller_memory q = if q == 0xFFFF80000000A000 then 47 else if q == 0xFFFF80000000A001 then 97 else 0

path_is_found :
    user_page_translate 0xFFFF800000000000 0x3000 4 caller.vm 0x5001 ≡ some 0xFFFF80000000A001
unfolding user_page_translate vmm_resolve resolve_pdpt resolve_pd resolve_pt
path_is_found = refl

put_entry-small :
    (t i e : ℕ) (tables : ℕ → ℕ → ℕ)
    → e < 2 ^ 40
    → ((t' i' : ℕ) → tables t' i' < 2 ^ 40)
    → (t' i' : ℕ) → put_entry t i e tables t' i' < 2 ^ 40
put_entry-small t i e tables small rest t' i' = elim (Bool-cases (t' == t)) [
  | inr other ↦ rw other (rest t' i')
  | inl same ↦ elim (Bool-cases (i' == i)) [
    | inl here ↦ rw (same, here) small
    | inr beside ↦ rw (same, beside) (rest t' i')
  ]
]

caller-small : (t i : ℕ) → caller.vm.entry t i < 2 ^ 40
caller-small = put_entry-small 0x3000 0 0x4007 _ (omega arith) (
    put_entry-small 0x4000 0 0x5007 _ (omega arith) (
      put_entry-small 0x5000 0 0x6007 _ (omega arith)
        (put_entry-small 0x6000 5 0xA007 (λ t i. 0) (omega arith) (λ t i. omega arith))))

caller-IsPrivate : IsPrivate caller 0xFFFFFFFFC0000000 0xFFFFFFFFC0010000
caller-IsPrivate = record {
  aligned = omega arith;
  apart = omega arith;
  foreign = λ pml4 v p running h.
      let (above, below) =
        user_page_translate-view 0xFFFF800000000000 pml4 4 caller.vm v p (omega arith) caller-small
          h in
      (omega arith, omega arith);
}

exec_copy_args-CopiedOutcome_example :
    CopiedOutcome 0xFFFFFFFFC0000000
      (exec_copy_args caller 0xFFFFFFFFC0000000 0xFFFFFFFFC0010000 0x5000 0x5010 caller_memory)
exec_copy_args-CopiedOutcome_example =
    exec_copy_args-CopiedOutcome caller 0xFFFFFFFFC0000000 0xFFFFFFFFC0010000 0x5000 0x5010
      caller_memory caller-IsPrivate

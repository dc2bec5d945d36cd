-- ===== src/Exec/Accept.antt =====
-- core/tasks/exec.c: elf_validate accepts exactly the programs.
use bomboclaat_os.Base.{
  ℕ, ◌+◌, ◌*◌, ◌%◌, ◌^◌, ◌≤◌, ◌<◌, ◌≡◌, refl, ap, ◌↔◌, inl, inr, Bool, true, false, not, ◌||◌,
  Option, none, some, ◌==◌, ltb, if◌then◌else◌, Bool-cases, false≢true, arith,
}
use bomboclaat_os.Memtools.{Mem}
use bomboclaat_os.Userspace.{user_min_addr}
use bomboclaat_os.Exec.Elf.{Ehdr, ehdr, ehdr_size, Phdr, phdr, phdr_size, executable, is_load}
use bomboclaat_os.Exec.Validate.{
  Code, ok, failed, Errno, enoexec, user_image_limit, exec_max_phnum, entered, check_segments,
  header_refused, elf_validate,
}
use bomboclaat_os.Exec.Program.{IsSegment, IsProgram}
use bomboclaat_os.Exec.Segments.{CanStart, Checked, check_segments-Checked}

failed≢ok : {e : Errno} → failed e ≡ ok → ⊥
failed≢ok h = false≢true (ap (λ c. elim c [ ok ↦ true | failed _ ↦ false ]) h)

-- The part of IsProgram that the loop decides.
abbrev Loadable : (ph : ℕ → Phdr) → (size entry count : ℕ) → Type 0
Loadable ph size entry count =
    ((i : ℕ) → i < count → is_load (ph i) ≡ true → IsSegment size (ph i))
    × ((i : ℕ) × (i < count) × CanStart entry (ph i))

-- What elf_validate makes of the loop's result.
abbrev verdict : Option (ℕ × Bool) → Code
verdict none = failed enoexec
verdict (some (loads, entry_ok)) = if (loads == 0) || not entry_ok then failed enoexec else ok

verdict_iff :
    (ph : ℕ → Phdr) (size entry count : ℕ) (o : Option (ℕ × Bool))
    → Checked ph size entry count 0 0 false o
    → (verdict o ≡ ok) ↔ Loadable ph size entry count
verdict_iff ph size entry count none (j, lo, hi, load, bad) =
    ((λ h. absurd (failed≢ok h)), (λ l. absurd (bad (l.0 j (omega arith) load))))
verdict_iff ph size entry count (some (loads, false)) (good, more, why, kept, all) = (
  (λ h. elim (Bool-cases (loads == 0)) [
    | inl z ↦ absurd (failed≢ok (rw z at h))
    | inr z ↦ absurd (failed≢ok (rw z at h))
  ]),
  (λ (_, (i, lt, start)). absurd (false≢true (all i (omega arith) (omega arith) start).0)),
)
verdict_iff ph size entry count (some (loads, true)) (good, more, why, kept, all) = (
  (λ h. (
    (λ i lt load. good i (omega arith) (omega arith) load),
    elim (why refl) [
      | inl before ↦ absurd (false≢true before)
      | inr (j, hi, start) ↦ (j, omega arith, start)
    ],
  )),
  (λ (_, (i, lt, start)).
      let counted = (all i (omega arith) (omega arith) start).1 in
      let nz : (loads == 0) ≡ false = ground arith in rw nz refl),
)

-- The part that the header decides.
abbrev HeaderFits : ℕ → Ehdr → Type 0
HeaderFits size eh =
    (eh.e_magic ≡ 0x464C457F)
    × (eh.e_class ≡ 2)
    × (eh.e_data ≡ 1)
    × (eh.e_machine ≡ 0x3E)
    × (eh.e_type ≡ 2)
    × (eh.e_phentsize ≡ phdr_size)
    × (1 ≤ eh.e_phnum)
    × (eh.e_phnum ≤ exec_max_phnum)
    × (eh.e_phoff + eh.e_phnum * phdr_size ≤ size)
    × (user_min_addr ≤ eh.e_entry)
    × (eh.e_entry < user_image_limit)

header_refused_iff : (size : ℕ) (eh : Ehdr) → (header_refused size eh ≡ false) ↔ HeaderFits size eh
header_refused_iff size eh = ground arith

-- An address in an executable segment of the image.
entered_iff :
    (size entry : ℕ) (ph : Phdr)
    → IsSegment size ph
    → (entered entry ph ≡ true)
      ↔ ((executable ph ≡ true) × (ph.p_vaddr ≤ entry) × (entry < ph.p_vaddr + ph.p_memsz))
entered_iff size entry ph s =
    let below = s.below in
    let no_wrap : (ph.p_vaddr + ph.p_memsz) % 2 ^ 64 ≡ ph.p_vaddr + ph.p_memsz = omega arith in
    rw no_wrap (ground arith)

-- elf_validate returns 0 exactly on the programs: files with an ELF header for x86-64, a table of
-- segments in the file, each loaded segment with its bytes in the file and its memory in the user's
-- image, and the entry point in an executable one of them.
pub elf_validate_iff :
    (elf size : ℕ) (mem : Mem) → (elf_validate elf size mem ≡ ok) ↔ IsProgram elf size mem
unfolding elf_validate
elf_validate_iff elf size mem =
    let eh = ehdr elf mem in
    let ph = phdr (elf + eh.e_phoff) mem in
    let loop = check_segments ph size eh.e_entry eh.e_phnum 0 0 false in
    let checked = check_segments-Checked ph size eh.e_entry eh.e_phnum 0 0 false in
    let decided = verdict_iff ph size eh.e_entry eh.e_phnum loop checked in
    let header = header_refused_iff size eh in
    (
      (λ h. elim (Bool-cases ((elf == 0) || ltb size ehdr_size)) [
        | inl short ↦ absurd (failed≢ok (rw short at h))
        | inr enough ↦ elim (Bool-cases (header_refused size eh)) [
          | inl bad ↦ absurd (failed≢ok (rw (enough, bad) at h))
          | inr fine ↦
              let (good, (i, lt, start)) = decided.0 (rw (enough, fine) at h) in
              let (h1, h2, h3, h4, h5, h6, h7, h8, h9, h10, h11) = header.0 fine in
              let (x, lo, hi) =
                (entered_iff size eh.e_entry (ph i) (good i lt start.0)).0 start.1 in
              record {
                there = ground arith;
                complete = ground arith;
                magic = h1;
                class_64 = h2;
                little_endian = h3;
                x86_64 = h4;
                exec = h5;
                entries = h6;
                count = (h7, h8);
                table = h9;
                entry = (h10, h11);
                segments = good;
                start = (i, lt, start.0, x, lo, hi);
              }
        ]
      ]),
      (λ p.
          let there = p.there in
          let complete = p.complete in
          let enough : ((elf == 0) || ltb size ehdr_size) ≡ false = ground arith in
          let fine : header_refused size eh ≡ false = header.1 (
            p.magic, p.class_64, p.little_endian, p.x86_64, p.exec, p.entries, p.count.0, p.count.1,
            p.table, p.entry.0, p.entry.1,
          ) in
          let (i, lt, load, x, lo, hi) = p.start in
          let start = (entered_iff size eh.e_entry (ph i) (p.segments i lt load)).1 (x, lo, hi) in
          rw (enough, fine) (decided.1 (p.segments, (i, lt, (load, start))))),
    )

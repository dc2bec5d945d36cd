-- ===== src/Exec/Validate.antt =====
-- core/tasks/exec.c: elf_validate and elf_find_sigterm.
use bomboclaat_os.Base.{
  ℕ, zero, suc, ◌+◌, ◌-◌, ◌*◌, ◌%◌, ◌^◌, Bool, true, false, not, ◌&&◌, ◌||◌, Option, none, some,
  List, [], ◌∷◌, ◌==◌, ltb, leb, if◌then◌else◌,
}
use bomboclaat_os.Memtools.{Mem}
use bomboclaat_os.Userspace.{user_min_addr}
use bomboclaat_os.Exec.Elf.{
  Ehdr, ehdr, ehdr_size, Phdr, phdr, phdr_size, Shdr, shdr, shdr_size, executable, is_load,
}

pub data Errno : Type 0 where
  enoexec : Errno
  enomem : Errno
  efault : Errno
  e2big : Errno
  enoent : Errno

-- 0, or the negative of a constant.
pub data Code : Type 0 where
  ok : Code
  failed : Errno → Code

abbrev pub user_image_limit : ℕ
user_image_limit = 0x00007FFE00000000

abbrev pub exec_max_segment : ℕ
exec_max_segment = 64 * 1024 * 1024

abbrev pub exec_max_phnum : ℕ
exec_max_phnum = 64

abbrev pub exec_max_shnum : ℕ
exec_max_shnum = 256

-- `x < USER_MIN_ADDR || x >= USER_IMAGE_LIMIT`
abbrev pub outside_image : ℕ → Bool
outside_image x = ltb x user_min_addr || leb user_image_limit x

-- The four checks of a segment.
abbrev pub segment_refused : ℕ → Phdr → Bool
segment_refused size ph =
    (ltb ph.p_memsz ph.p_filesz || ltb exec_max_segment ph.p_memsz)
    || (ltb size ph.p_offset || ltb (size - ph.p_offset) ph.p_filesz)
    || outside_image ph.p_vaddr
    || ltb (user_image_limit - ph.p_vaddr) ph.p_memsz

-- The segment can be entered at `entry`.
abbrev pub entered : ℕ → Phdr → Bool
entered entry ph =
    executable ph && leb ph.p_vaddr entry && ltb entry ((ph.p_vaddr + ph.p_memsz) % 2 ^ 64)

-- The loop over the segments, with `rounds` of them left: `loads` and `entry_ok`, or `none` for
-- -ENOEXEC.
unfoldable pub check_segments :
    (ℕ → Phdr) → (size entry rounds i loads : ℕ) → Bool → Option (ℕ × Bool)
check_segments ph size entry zero i loads entry_ok = some (loads, entry_ok)
check_segments ph size entry (suc rounds) i loads entry_ok =
    let skipped = check_segments ph size entry rounds (i + 1) loads entry_ok in
    let counted =
      check_segments ph size entry rounds (i + 1) (loads + 1) (entry_ok || entered entry (ph i)) in
    if is_load (ph i) then (if segment_refused size (ph i) then none else counted) else skipped

-- The checks of the header.
abbrev pub header_refused : ℕ → Ehdr → Bool
header_refused size eh =
    (not (eh.e_magic == 0x464C457F) || not (eh.e_class == 2) || not (eh.e_data == 1))
    || (not (eh.e_machine == 0x3E) || not (eh.e_type == 2))
    || (not (eh.e_phentsize == phdr_size) || (eh.e_phnum == 0) || ltb exec_max_phnum eh.e_phnum)
    || (ltb size eh.e_phoff || ltb (size - eh.e_phoff) (eh.e_phnum * phdr_size))
    || outside_image eh.e_entry

unfoldable pub elf_validate : (elf size : ℕ) → Mem → Code
unfolding check_segments
elf_validate elf size mem =
    let eh = ehdr elf mem in
    let ph = phdr (elf + eh.e_phoff) mem in
    if (elf == 0) || ltb size ehdr_size
    then failed enoexec
    else if header_refused size eh
    then failed enoexec
    else elim (check_segments ph size eh.e_entry eh.e_phnum 0 0 false) [
      | none ↦ failed enoexec
      | some (loads, entry_ok) ↦ if (loads == 0) || not entry_ok then failed enoexec else ok
    ]

-- The bytes of ".sigterm", with its 0.
abbrev pub wanted : List ℕ
wanted = 46 ∷ 115 ∷ 105 ∷ 103 ∷ 116 ∷ 101 ∷ 114 ∷ 109 ∷ 0 ∷ []

-- The comparison of the name at `p`.
unfoldable pub same_name : List ℕ → ℕ → Mem → Bool
same_name [] p mem = true
same_name (b ∷ bs) p mem = (mem p == b) && same_name bs (p + 1) mem

-- The loop over the sections, with `rounds` of them left.
unfoldable pub find_section : (ℕ → Shdr) → (strtab strsize rounds i : ℕ) → Mem → ℕ
unfolding same_name
find_section sh strtab strsize zero i mem = 0
find_section sh strtab strsize (suc rounds) i mem =
    let off = (sh i).sh_name in
    let rest = find_section sh strtab strsize rounds (i + 1) mem in
    if leb strsize off || ltb (strsize - off) 9
    then rest
    else if same_name wanted (strtab + off) mem && not (outside_image (sh i).sh_addr)
    then (sh i).sh_addr
    else rest

unfoldable pub elf_find_sigterm : (elf size : ℕ) → Mem → ℕ
unfolding find_section
elf_find_sigterm elf size mem =
    let eh = ehdr elf mem in
    let sh = shdr (elf + eh.e_shoff) mem in
    let strsec = sh eh.e_shstrndx in
    if (eh.e_shoff == 0) || (eh.e_shnum == 0) || ltb exec_max_shnum eh.e_shnum
    then 0
    else if not (eh.e_shentsize == shdr_size) || leb eh.e_shnum eh.e_shstrndx
    then 0
    else if ltb size eh.e_shoff || ltb (size - eh.e_shoff) (eh.e_shnum * shdr_size)
    then 0
    else if ltb size strsec.sh_offset || ltb (size - strsec.sh_offset) strsec.sh_size
    then 0
    else find_section sh (elf + strsec.sh_offset) strsec.sh_size eh.e_shnum 0 mem

-- ===== src/Exec/Program.antt =====
-- core/tasks/exec.c: what the file of a program is to be.
use bomboclaat_os.Base.{ℕ, ◌+◌, ◌*◌, ◌≤◌, ◌<◌, ◌≡◌, ◌≢◌, true}
use bomboclaat_os.Memtools.{Mem}
use bomboclaat_os.Userspace.{user_min_addr}
use bomboclaat_os.Exec.Elf.{ehdr, ehdr_size, Phdr, phdr, phdr_size, executable, is_load}
use bomboclaat_os.Exec.Validate.{user_image_limit, exec_max_segment, exec_max_phnum}

-- A segment that is loaded has its bytes in the file, and lies in the user's image.
pub record IsSegment (size : ℕ) (ph : Phdr) : Type 0 where
  pub filled : ph.p_filesz ≤ ph.p_memsz
  pub bounded : ph.p_memsz ≤ exec_max_segment
  pub in_file : ph.p_offset + ph.p_filesz ≤ size
  pub above : user_min_addr ≤ ph.p_vaddr
  pub below : ph.p_vaddr + ph.p_memsz ≤ user_image_limit

-- `ph[i]` of the file.
abbrev pub segment : ℕ → Mem → ℕ → Phdr
segment elf mem i = phdr (elf + (ehdr elf mem).e_phoff) mem i

-- What a program's file is to be.
pub record IsProgram (elf size : ℕ) (mem : Mem) : Type 0 where
  pub there : elf ≢ 0
  pub complete : ehdr_size ≤ size
  pub magic : (ehdr elf mem).e_magic ≡ 0x464C457F
  pub class_64 : (ehdr elf mem).e_class ≡ 2
  pub little_endian : (ehdr elf mem).e_data ≡ 1
  pub x86_64 : (ehdr elf mem).e_machine ≡ 0x3E
  pub exec : (ehdr elf mem).e_type ≡ 2
  pub entries : (ehdr elf mem).e_phentsize ≡ phdr_size
  pub count : (1 ≤ (ehdr elf mem).e_phnum) × ((ehdr elf mem).e_phnum ≤ exec_max_phnum)
  pub table : (ehdr elf mem).e_phoff + (ehdr elf mem).e_phnum * phdr_size ≤ size
  pub entry : (user_min_addr ≤ (ehdr elf mem).e_entry) × ((ehdr elf mem).e_entry < user_image_limit)
  pub segments :
      (i : ℕ)
      → i < (ehdr elf mem).e_phnum
      → is_load (segment elf mem i) ≡ true
      → IsSegment size (segment elf mem i)
  pub start :
      (i : ℕ) × (i < (ehdr elf mem).e_phnum)
      × (is_load (segment elf mem i) ≡ true)
      × (executable (segment elf mem i) ≡ true)
      × ((segment elf mem i).p_vaddr ≤ (ehdr elf mem).e_entry)
      × ((ehdr elf mem).e_entry < (segment elf mem i).p_vaddr + (segment elf mem i).p_memsz)

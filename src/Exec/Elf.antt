-- ===== src/Exec/Elf.antt =====
-- include/bomboclaat/elf64.h: the headers of an ELF file, and how they lie in memory.
use bomboclaat_os.Base.{ℕ, ◌+◌, ◌*◌, ◌%◌, ◌^◌, Bool, not, ◌&&◌, ◌==◌}
use bomboclaat_os.Memtools.{Mem}

-- Little-endian loads.
abbrev pub load_u16 : ℕ → Mem → ℕ
load_u16 p mem = mem p + 2 ^ 8 * mem (p + 1)

abbrev pub load_u32 : ℕ → Mem → ℕ
load_u32 p mem = load_u16 p mem + 2 ^ 16 * load_u16 (p + 2) mem

abbrev pub load_u64 : ℕ → Mem → ℕ
load_u64 p mem = load_u32 p mem + 2 ^ 32 * load_u32 (p + 4) mem

-- `*(const uint32_t *)eh->e_ident` and the bytes 4 and 5 of e_ident come first.
pub record Ehdr : Type 0 where
  pub e_magic : ℕ
  pub e_class : ℕ
  pub e_data : ℕ
  pub e_type : ℕ
  pub e_machine : ℕ
  pub e_entry : ℕ
  pub e_phoff : ℕ
  pub e_shoff : ℕ
  pub e_phentsize : ℕ
  pub e_phnum : ℕ
  pub e_shentsize : ℕ
  pub e_shnum : ℕ
  pub e_shstrndx : ℕ

unfoldable pub ehdr : ℕ → Mem → Ehdr
ehdr p mem = record {
  e_magic = load_u32 p mem;
  e_class = mem (p + 4);
  e_data = mem (p + 5);
  e_type = load_u16 (p + 16) mem;
  e_machine = load_u16 (p + 18) mem;
  e_entry = load_u64 (p + 24) mem;
  e_phoff = load_u64 (p + 32) mem;
  e_shoff = load_u64 (p + 40) mem;
  e_phentsize = load_u16 (p + 54) mem;
  e_phnum = load_u16 (p + 56) mem;
  e_shentsize = load_u16 (p + 58) mem;
  e_shnum = load_u16 (p + 60) mem;
  e_shstrndx = load_u16 (p + 62) mem;
}

-- `sizeof(ELF64_Ehdr)`, `sizeof(ELF64_Phdr)`, `sizeof(ELF64_Shdr)`
abbrev pub ehdr_size : ℕ
ehdr_size = 64

abbrev pub phdr_size : ℕ
phdr_size = 56

abbrev pub shdr_size : ℕ
shdr_size = 64

pub record Phdr : Type 0 where
  pub p_type : ℕ
  pub p_flags : ℕ
  pub p_offset : ℕ
  pub p_vaddr : ℕ
  pub p_filesz : ℕ
  pub p_memsz : ℕ

-- `ph[i]`, with `ph` at `p`.
unfoldable pub phdr : ℕ → Mem → ℕ → Phdr
phdr p mem i =
    let at = p + i * phdr_size in
    record {
      p_type = load_u32 at mem;
      p_flags = load_u32 (at + 4) mem;
      p_offset = load_u64 (at + 8) mem;
      p_vaddr = load_u64 (at + 16) mem;
      p_filesz = load_u64 (at + 32) mem;
      p_memsz = load_u64 (at + 40) mem;
    }

pub record Shdr : Type 0 where
  pub sh_name : ℕ
  pub sh_addr : ℕ
  pub sh_offset : ℕ
  pub sh_size : ℕ

-- `sh[i]`, with `sh` at `p`.
unfoldable pub shdr : ℕ → Mem → ℕ → Shdr
shdr p mem i =
    let at = p + i * shdr_size in
    record {
      sh_name = load_u32 at mem;
      sh_addr = load_u64 (at + 16) mem;
      sh_offset = load_u64 (at + 24) mem;
      sh_size = load_u64 (at + 32) mem;
    }

-- `seg->p_flags & PF_X` and `seg->p_flags & PF_W`
abbrev pub executable : Phdr → Bool
executable ph = not (ph.p_flags % 2 == 0)

abbrev pub is_load : Phdr → Bool
is_load ph = (ph.p_type == 1) && not (ph.p_memsz == 0)

-- ===== src/Vmm/Table.antt =====
-- core/memory/vmm.c and include/memory/vmm.h: tables, entries, and the state that the functions share.
use bomboclaat_os.Base.{ℕ, ◌*◌, ◌/◌, ◌%◌, ◌^◌, Bool, not, ◌==◌, if◌then◌else◌}
use bomboclaat_os.Pmm.{Pmm}

-- `((vmm_table_t *)(t + hhdm_offset))->entries[i]`
abbrev pub Tables : Type 0
Tables = ℕ → ℕ → ℕ

pub record Vm : Type 0 where
  pub pmm : Pmm
  pub entry : Tables

abbrev pub present : ℕ → Bool
present e = not (e % 2 == 0)

-- `entry & CLEAR_FLAGS`: bits 12 to 51.
abbrev pub clear_flags : ℕ → ℕ
clear_flags e = e / 4096 % 2 ^ 40 * 4096

abbrev pub pml4_index : ℕ → ℕ
pml4_index virt = virt / 2 ^ 39 % 512

abbrev pub pdpt_index : ℕ → ℕ
pdpt_index virt = virt / 2 ^ 30 % 512

abbrev pub pd_index : ℕ → ℕ
pd_index virt = virt / 2 ^ 21 % 512

abbrev pub pt_index : ℕ → ℕ
pt_index virt = virt / 2 ^ 12 % 512

-- `entries[i] = e` in the table at `t`.
abbrev pub put_entry : ℕ → ℕ → ℕ → Tables → Tables
put_entry t i e entry u j = if u == t then (if j == i then e else entry u j) else entry u j

-- `memset(…, 0, sizeof(vmm_table_t))`
abbrev pub clear_table : ℕ → Tables → Tables
clear_table t entry u j = if u == t then 0 else entry u j

abbrev pub vmm_write : ℕ
vmm_write = 2

abbrev pub vmm_user : ℕ
vmm_user = 4

abbrev pub vmm_nx : ℕ
vmm_nx = 2 ^ 63

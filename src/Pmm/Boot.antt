-- ===== src/Pmm/Boot.antt =====
-- core/memory/pmm.c: pmm_init and init_memmap, from the memory map of the boot loader.
use bomboclaat_os.Base.{
  ℕ, zero, suc, ◌+◌, ◌-◌, ◌*◌, ◌/◌, ◌^◌, ◌&&◌, ◌||◌, ◌==◌, ltb, leb, if◌then◌else◌, List, [], ◌∷◌,
  replicate,
}
use bomboclaat_os.Pmm.Map.{Pmm, page_size, word, give_frame}

-- `struct limine_memmap_entry` of include/boot/limine.h, the boot protocol's header.
pub record Entry : Type 0 where
  pub base : ℕ
  pub length : ℕ
  pub type : ℕ

abbrev pub memmap_usable : ℕ
memmap_usable = 0

abbrev pub memmap_acpi_reclaimable : ℕ
memmap_acpi_reclaimable = 2

abbrev pub memmap_bootloader_reclaimable : ℕ
memmap_bootloader_reclaimable = 5

abbrev pub memmap_executable_and_modules : ℕ
memmap_executable_and_modules = 6

abbrev pub memmap_reserved_mapped : ℕ
memmap_reserved_mapped = 8

-- The first loop: the highest address, and the usable frames.
unfoldable pub survey : List Entry → ℕ → ℕ → ℕ × ℕ
survey [] top usable = (top, usable)
survey (e ∷ es) top usable =
    survey es (if ltb top (word (e.base + e.length)) then word (e.base + e.length) else top)
      (if e.type == memmap_usable then word (usable + e.length / page_size) else usable)

-- The second loop: the first usable entry that holds the bitmap gives its physical address.
unfoldable pub place_bitmap : List Entry → ℕ → ℕ
place_bitmap [] size = 0
place_bitmap (e ∷ es) size =
    if (e.type == memmap_usable) && leb size e.length
    then word (e.base + e.length + 2 ^ 64 - size) / page_size * page_size
    else place_bitmap es size

-- The body of the inner loop of the third one: one frame is released, unless it holds the bitmap.
unfoldable pub release : ℕ → ℕ → ℕ → Pmm → Pmm
release at size addr p =
    if leb at addr && ltb addr (word (at + size)) then p else give_frame p (addr / page_size)

-- `for (addr = base; addr < base + length; addr += PAGE_SIZE)`, by the rounds that are left.
unfoldable pub release_pages : ℕ → ℕ → ℕ → ℕ → Pmm → Pmm
release_pages zero at size addr p = p
release_pages (suc rounds) at size addr p =
    release_pages rounds at size (addr + page_size) (release at size addr p)

-- How often that loop runs; not at all if `base + length` wraps.
abbrev pub pages : Entry → ℕ
pages e = (word (e.base + e.length) - e.base + page_size - 1) / page_size

unfoldable pub release_entries : List Entry → ℕ → ℕ → Pmm → Pmm
release_entries [] at size p = p
release_entries (e ∷ es) at size p =
    release_entries es at size
      (if e.type == memmap_usable then release_pages (pages e) at size e.base p else p)

unfoldable pub pmm_init : List Entry → Pmm
unfolding survey place_bitmap release_entries release_pages release
pmm_init memmap =
    let (top, usable) = survey memmap 0 0 in
    let total = top / page_size in
    let size = (total + 7) / 8 in
    release_entries memmap (place_bitmap memmap size) size (record {
      bitmap = replicate size 255;
      total_frames = total;
      used_frames = total;
      usable_frames = usable;
    })

-- `ram_t`
pub record Ram : Type 0 where
  pub total : ℕ
  pub usable : ℕ

unfoldable pub count_entry : Entry → Ram → Ram
count_entry e r =
    if e.type == memmap_usable
    then record { total = word (r.total + e.length); usable = word (r.usable + e.length) }
    else if (e.type == memmap_executable_and_modules)
        || (e.type == memmap_bootloader_reclaimable)
        || (e.type == memmap_acpi_reclaimable)
        || (e.type == memmap_reserved_mapped)
    then record r { total = word (r.total + e.length) }
    else r

unfoldable pub count_entries : List Entry → Ram → Ram
count_entries [] r = r
count_entries (e ∷ es) r = count_entries es (count_entry e r)

unfoldable pub init_memmap : List Entry → Ram
unfolding count_entries count_entry
init_memmap memmap = count_entries memmap (record { total = 0; usable = 0 })

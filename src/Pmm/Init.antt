-- ===== src/Pmm/Init.antt =====
-- core/memory/pmm.c: pmm_init, from a memory map as the boot protocol documents it.

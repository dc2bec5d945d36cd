-- ===== src/Exec/Sigterm.antt =====
-- core/tasks/exec.c: the section that elf_find_sigterm finds.
use bomboclaat_os.Base.{
  ℕ, zero, suc, ◌+◌, ◌-◌, ◌*◌, ◌≤◌, ◌<◌, ◌≡◌, refl, sym, ap, ◌∙◌, ◌↔◌, ◌⊎◌, inl, inr, Bool, true,
  false, not, ◌&&◌, ◌||◌, List, [], ◌∷◌, ◌==◌, ==_iff, ltb, leb, Bool-cases, false≢true, arith,
  get_elem?, some, some-injective, none≢some, subst,
}
use bomboclaat_os.Memtools.{Mem}
use bomboclaat_os.Userspace.{user_min_addr}
use bomboclaat_os.Exec.Elf.{Ehdr, ehdr, Shdr, shdr, shdr_size}
use bomboclaat_os.Exec.Validate.{
  user_image_limit, exec_max_shnum, outside_image, wanted, same_name, find_section,
  elf_find_sigterm,
}

-- The bytes from `p` on are those of the list.
abbrev pub Spells : List ℕ → ℕ → Mem → Type 0
Spells name p mem = (k b : ℕ) → get_elem? name k ≡ some b → mem (p + k) ≡ b

same_name-Spells :
    (name : List ℕ) (p : ℕ) (mem : Mem) → (same_name name p mem ≡ true) ↔ Spells name p mem
unfolding same_name
same_name-Spells [] p mem = ((λ h k b e. absurd (none≢some e)), (λ s. refl))
same_name-Spells (c ∷ name) p mem =
    let rest = same_name-Spells name (p + 1) mem in
    (
      (λ h k b e. forward h (rest.0 (ground arith)) k b e),
      (λ s.
          let first : mem p ≡ c = ap mem (omega arith) ∙ s 0 c refl in
          let here = (==_iff (mem p) c).1 first in
          rw here (rest.1 (λ k b e. ap mem (omega arith) ∙ s (suc k) b e))),
    )
  where
    forward :
        (mem p == c && same_name name (p + 1) mem) ≡ true
        → Spells name (p + 1) mem
        → Spells (c ∷ name) p mem
    forward h rest zero b e =
        let first : mem p ≡ c = ground arith in ap mem (omega arith) ∙ first ∙ some-injective e
    forward h rest (suc k) b e = ap mem (omega arith) ∙ rest k b e

-- A section that counts: its name lies in the table of strings and is ".sigterm", and its address is
-- in the user's image.
pub record IsSigterm (strtab strsize : ℕ) (mem : Mem) (sh : Shdr) : Type 0 where
  pub inside : sh.sh_name + 9 ≤ strsize
  pub name : Spells wanted (strtab + sh.sh_name) mem
  pub address : (user_min_addr ≤ sh.sh_addr) × (sh.sh_addr < user_image_limit)

-- The address of the first such section from `i` on, or 0 if there is none.
abbrev pub Found : (sh : ℕ → Shdr) → (strtab strsize rounds i : ℕ) → Mem → ℕ → Type 0
Found sh strtab strsize rounds i mem r =
    ((j : ℕ) × (i ≤ j)
      × (j < i + rounds)
      × IsSigterm strtab strsize mem (sh j)
      × ((k : ℕ) → i ≤ k → k < j → IsSigterm strtab strsize mem (sh k) → ⊥)
      × (r ≡ (sh j).sh_addr))
    ⊎ ((r ≡ 0) × ((k : ℕ) → i ≤ k → k < i + rounds → IsSigterm strtab strsize mem (sh k) → ⊥))

module _ (sh : ℕ → Shdr) (strtab strsize : ℕ) (mem : Mem) where
  Found-skip :
      (rounds i r : ℕ)
      → (IsSigterm strtab strsize mem (sh i) → ⊥)
      → Found sh strtab strsize rounds (i + 1) mem r
      → Found sh strtab strsize (suc rounds) i mem r
  Found-skip rounds i r miss (inl (j, lo, hi, found, first, e)) = inl (
    j,
    omega arith,
    omega arith,
    found,
    (λ k lo' hi'. elim (Bool-cases (i == k)) [
      | inl same ↦ subst (λ x. IsSigterm strtab strsize mem (sh x) → ⊥) ((==_iff i k).0 same) miss
      | inr ne ↦ first k (ground arith) hi'
    ]),
    e,
  )
  Found-skip rounds i r miss (inr (z, never)) = inr (
    z,
    (λ k lo hi. elim (Bool-cases (i == k)) [
      | inl same ↦ subst (λ x. IsSigterm strtab strsize mem (sh x) → ⊥) ((==_iff i k).0 same) miss
      | inr ne ↦ never k (ground arith) (omega arith)
    ]),
  )

  find_section-Found :
      (rounds i : ℕ)
      → Found sh strtab strsize rounds i mem (find_section sh strtab strsize rounds i mem)
  unfolding find_section
  find_section-Found zero i = inr (refl, λ k lo hi. absurd (omega arith))
  find_section-Found (suc rounds) i =
      let off = (sh i).sh_name in
      let rest = find_section-Found rounds (i + 1) in
      elim (Bool-cases (leb strsize off || ltb (strsize - off) 9)) [
        | inl cut ↦
            rw cut
              (Found-skip rounds i _ (λ found. let x = found.inside in absurd (ground arith)) rest)
        | inr whole ↦
            elim (Bool-cases
              (same_name wanted (strtab + off) mem && not (outside_image (sh i).sh_addr))) [
                | inr other ↦
                    rw (whole, other)
                      (Found-skip rounds i _
                        (λ found.
                          let (lo, hi) = found.address in
                          let spelt = (same_name-Spells wanted (strtab + off) mem).1 found.name in
                          absurd (ground arith))
                        rest)
                | inl hit ↦
                    rw (whole, hit)
                      (inl (
                        i,
                        omega arith,
                        omega arith,
                        record {
                          inside = ground arith;
                          name = (same_name-Spells wanted (strtab + off) mem).0 (ground arith);
                          address = (ground arith, ground arith);
                        },
                        (λ k lo hi. absurd (omega arith)),
                        refl,
                      ))
              ]
      ]

-- The table of sections lies in the file, and so does the table of their names.
pub record HasSections (elf size : ℕ) (mem : Mem) (strsec : Shdr) : Type 0 where
  pub some_table : 0 < (ehdr elf mem).e_shoff
  pub count : (1 ≤ (ehdr elf mem).e_shnum) × ((ehdr elf mem).e_shnum ≤ exec_max_shnum)
  pub entries : (ehdr elf mem).e_shentsize ≡ shdr_size
  pub names : (ehdr elf mem).e_shstrndx < (ehdr elf mem).e_shnum
  pub table : (ehdr elf mem).e_shoff + (ehdr elf mem).e_shnum * shdr_size ≤ size
  pub strings : strsec.sh_offset + strsec.sh_size ≤ size

-- One of the four checks at the front fails.
abbrev tables_refused : ℕ → Ehdr → Shdr → Bool
tables_refused size eh strsec =
    ((eh.e_shoff == 0) || (eh.e_shnum == 0) || ltb exec_max_shnum eh.e_shnum)
    || (not (eh.e_shentsize == shdr_size) || leb eh.e_shnum eh.e_shstrndx)
    || (ltb size eh.e_shoff || ltb (size - eh.e_shoff) (eh.e_shnum * shdr_size))
    || (ltb size strsec.sh_offset || ltb (size - strsec.sh_offset) strsec.sh_size)

tables_refused_iff :
    (elf size : ℕ) (mem : Mem) (strsec : Shdr)
    → (tables_refused size (ehdr elf mem) strsec ≡ false) ↔ HasSections elf size mem strsec
tables_refused_iff elf size mem strsec = (
  (λ h. record {
    some_table = ground arith;
    count = (ground arith, ground arith);
    entries = ground arith;
    names = ground arith;
    table = ground arith;
    strings = ground arith;
  }),
  (λ t.
      let a = t.some_table in
      let (b, c) = t.count in
      let d = t.entries in let e = t.names in let f = t.table in let g = t.strings in ground arith),
)

abbrev pub names_section : ℕ → Mem → Shdr
names_section elf mem = shdr (elf + (ehdr elf mem).e_shoff) mem (ehdr elf mem).e_shstrndx

-- elf_find_sigterm returns 0 if the tables of sections and of their names do not lie in the file;
-- otherwise it returns the address of the first section with the name ".sigterm" and an address in
-- the user's image, or 0 if there is none.
pub elf_find_sigterm-Found :
    (elf size : ℕ) (mem : Mem)
    → let strsec = names_section elf mem in
      (HasSections elf size mem strsec
        × Found
            (shdr (elf + (ehdr elf mem).e_shoff) mem)
            (elf + strsec.sh_offset)
            strsec.sh_size
            (ehdr elf mem).e_shnum
            0
            mem
            (elf_find_sigterm elf size mem))
      ⊎ ((HasSections elf size mem strsec → ⊥) × (elf_find_sigterm elf size mem ≡ 0))
unfolding elf_find_sigterm
elf_find_sigterm-Found elf size mem =
    let eh = ehdr elf mem in
    let strsec = names_section elf mem in
    let r = elf_find_sigterm elf size mem in
    let sh = shdr (elf + eh.e_shoff) mem in
    let found = find_section-Found sh (elf + strsec.sh_offset) strsec.sh_size mem eh.e_shnum 0 in
    let tables = tables_refused_iff elf size mem strsec in
    elim (Bool-cases (tables_refused size eh strsec)) [
      | inl bad ↦
          let zero : r ≡ 0 = ground arith in inr ((λ t. false≢true (sym (tables.1 t) ∙ bad)), zero)
      | inr fine ↦
          let same : r ≡ find_section sh (elf + strsec.sh_offset) strsec.sh_size eh.e_shnum 0 mem =
            ground arith in
          inl (
            tables.0 fine,
            subst (λ x. Found sh (elf + strsec.sh_offset) strsec.sh_size eh.e_shnum 0 mem x)
                (sym same) found,
          )
    ]

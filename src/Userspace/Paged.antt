-- ===== src/Userspace/Paged.antt =====
-- core/memory/userspace.c and vmm.c: the addresses of one page translate with the same offset.
use bomboclaat_os.Base.{
  ℕ, ◌+◌, ◌*◌, ◌/◌, ◌%◌, ◌^◌, ◌≤◌, ◌<◌, ◌≡◌, refl, ◌↔◌, ◌⊎◌, inl, inr, true, Option, none, some,
  ◌==◌, if◌then◌else◌, Bool-cases, bit_and, arith, none≢some, some-injective,
}
use bomboclaat_os.Vmm.{
  Vm, present, clear_flags, pml4_index, pdpt_index, pd_index, pt_index, narrowed, resolve_pt,
  resolve_pd, resolve_pdpt, vmm_resolve,
}
use bomboclaat_os.Userspace.Copy.{
  user_min_addr, user_space_limit, user_range_valid, user_page_translate,
}

-- A later address of the page translates to the address as far behind.
abbrev pub IsPaged : (ℕ → Option ℕ) → Type 0
IsPaged translate =
    (v k p : ℕ) → v % 4096 + k < 4096 → translate v ≡ some p → translate (v + k) ≡ some (p + k)

-- The result at an address `k` bytes behind `v`: that at `v`, whose offset in its page is that of `v`,
-- and `k` more.
abbrev Later : (v k : ℕ) → Option (ℕ × ℕ) → Option (ℕ × ℕ) → Type 0
Later v k none o = o ≡ none
Later v k (some (phys, flags)) o = (o ≡ some (phys + k, flags)) × (phys % 4096 ≡ v % 4096)

module _ (v k : ℕ) (s : Vm) (inside : v % 4096 + k < 4096) where
  resolve_pt-Later : (t eff : ℕ) → Later v k (resolve_pt t v eff s) (resolve_pt t (v + k) eff s)
  unfolding resolve_pt
  resolve_pt-Later t eff =
      let i : pt_index (v + k) ≡ pt_index v = omega arith in
      let e = s.entry t (pt_index v) in
      let off : clear_flags e + (v + k) % 4096 ≡ clear_flags e + v % 4096 + k = omega arith in
      elim (Bool-cases (present e)) [
        | inl there ↦ rw (resolve_pt, i, there, off) (refl, omega arith)
        | inr gone ↦ rw (resolve_pt, i, gone) refl
      ]

  resolve_pd-Later : (t eff : ℕ) → Later v k (resolve_pd t v eff s) (resolve_pd t (v + k) eff s)
  unfolding resolve_pd
  resolve_pd-Later t eff =
      let i : pd_index (v + k) ≡ pd_index v = omega arith in
      let e = s.entry t (pd_index v) in
      let base = e / 2 ^ 21 % 2 ^ 31 * 2 ^ 21 in
      let off : base + (v + k) % 2 ^ 21 ≡ base + v % 2 ^ 21 + k = omega arith in
      elim (Bool-cases (present e)) [
        | inr gone ↦ rw (resolve_pd, i, gone) refl
        | inl there ↦ elim (Bool-cases (e / 128 % 2 == 0)) [
          | inl small ↦
              rw (resolve_pd, i, there, small) (resolve_pt-Later (clear_flags e) (narrowed eff e))
          | inr large ↦ rw (resolve_pd, i, there, large, off) (refl, omega arith)
        ]
      ]

  resolve_pdpt-Later :
      (t eff : ℕ) → Later v k (resolve_pdpt t v eff s) (resolve_pdpt t (v + k) eff s)
  unfolding resolve_pdpt
  resolve_pdpt-Later t eff =
      let i : pdpt_index (v + k) ≡ pdpt_index v = omega arith in
      let e = s.entry t (pdpt_index v) in
      let base = e / 2 ^ 30 % 2 ^ 22 * 2 ^ 30 in
      let off : base + (v + k) % 2 ^ 30 ≡ base + v % 2 ^ 30 + k = omega arith in
      elim (Bool-cases (present e)) [
        | inr gone ↦ rw (resolve_pdpt, i, gone) refl
        | inl there ↦ elim (Bool-cases (e / 128 % 2 == 0)) [
          | inl small ↦
              rw (resolve_pdpt, i, there, small) (resolve_pd-Later (clear_flags e) (narrowed eff e))
          | inr large ↦ rw (resolve_pdpt, i, there, large, off) (refl, omega arith)
        ]
      ]

  vmm_resolve-Later : (pml4 : ℕ) → Later v k (vmm_resolve pml4 v s) (vmm_resolve pml4 (v + k) s)
  unfolding vmm_resolve
  vmm_resolve-Later pml4 =
      let i : pml4_index (v + k) ≡ pml4_index v = omega arith in
      let e = s.entry pml4 (pml4_index v) in
      elim (Bool-cases (pml4 == 0)) [
        | inl null ↦ rw (vmm_resolve, null) refl
        | inr ok ↦ elim (Bool-cases (present e)) [
          | inr gone ↦ rw (vmm_resolve, i, ok, gone) refl
          | inl there ↦
              rw (vmm_resolve, i, ok, there) (resolve_pdpt-Later (clear_flags e) (bit_and e 6))
        ]
      ]

-- `kptr`, from the result of vmm_resolve.
abbrev kernel_ptr : ℕ → ℕ → Option (ℕ × ℕ) → Option ℕ
kernel_ptr hhdm need none = none
kernel_ptr hhdm need (some (phys, flags)) =
    if bit_and flags need == need then some ((phys + hhdm) % 2 ^ 64) else none

kernel_ptr-Later :
    (hhdm need v k p : ℕ) (o o' : Option (ℕ × ℕ))
    → hhdm % 4096 ≡ 0
    → v % 4096 + k < 4096
    → Later v k o o'
    → kernel_ptr hhdm need o ≡ some p
    → kernel_ptr hhdm need o' ≡ some (p + k)
kernel_ptr-Later hhdm need v k p none o' aligned inside later h = absurd (none≢some h)
kernel_ptr-Later hhdm need v k p (some (phys, flags)) o' aligned inside (e, offset) h =
    elim (Bool-cases (bit_and flags need == need)) [
      | inr denied ↦ absurd (none≢some (rw denied at h))
      | inl granted ↦
          let first : (phys + hhdm) % 2 ^ 64 ≡ p = some-injective (rw granted at h) in
          let later : (phys + k + hhdm) % 2 ^ 64 ≡ p + k = omega arith in
          rw (e, granted, later) refl
    ]

-- user_page_translate has that property, if the kernel's view of physical memory begins at a page:
-- pages of 2 MB and 1 GB included.
pub user_page_translate-IsPaged :
    (hhdm pml4 need : ℕ) (s : Vm) → hhdm % 4096 ≡ 0 → IsPaged (user_page_translate hhdm pml4 need s)
unfolding user_page_translate
user_page_translate-IsPaged hhdm pml4 need s aligned v k p inside h =
    let later : kernel_ptr hhdm need (vmm_resolve pml4 (v + k) s) ≡ some (p + k) =
      kernel_ptr-Later hhdm need v k p (vmm_resolve pml4 v s) (vmm_resolve pml4 (v + k) s) aligned
        inside (vmm_resolve-Later v k s inside pml4) h in
    later

-- The result is below 2^41.
abbrev Low : Option (ℕ × ℕ) → Type 0
Low none = Unit
Low (some (phys, flags)) = phys < 2 ^ 41

-- Where all entries of the tables are below 2^40.
module _ (v : ℕ) (s : Vm) (small : (t i : ℕ) → s.entry t i < 2 ^ 40) where
  resolve_pt-Low : (t eff : ℕ) → Low (resolve_pt t v eff s)
  unfolding resolve_pt
  resolve_pt-Low t eff =
      let e = small t (pt_index v) in
      elim (Bool-cases (present (s.entry t (pt_index v)))) [
        | inl there ↦ rw (resolve_pt, there) (omega arith)
        | inr gone ↦ rw (resolve_pt, gone) tt
      ]

  resolve_pd-Low : (t eff : ℕ) → Low (resolve_pd t v eff s)
  unfolding resolve_pd
  resolve_pd-Low t eff =
      let e = s.entry t (pd_index v) in
      let bound = small t (pd_index v) in
      elim (Bool-cases (present e)) [
        | inr gone ↦ rw (resolve_pd, gone) tt
        | inl there ↦ elim (Bool-cases (e / 128 % 2 == 0)) [
          | inl table ↦
              rw (resolve_pd, there, table) (resolve_pt-Low (clear_flags e) (narrowed eff e))
          | inr large ↦ rw (resolve_pd, there, large) (omega arith)
        ]
      ]

  resolve_pdpt-Low : (t eff : ℕ) → Low (resolve_pdpt t v eff s)
  unfolding resolve_pdpt
  resolve_pdpt-Low t eff =
      let e = s.entry t (pdpt_index v) in
      let bound = small t (pdpt_index v) in
      elim (Bool-cases (present e)) [
        | inr gone ↦ rw (resolve_pdpt, gone) tt
        | inl there ↦ elim (Bool-cases (e / 128 % 2 == 0)) [
          | inl table ↦
              rw (resolve_pdpt, there, table) (resolve_pd-Low (clear_flags e) (narrowed eff e))
          | inr large ↦ rw (resolve_pdpt, there, large) (omega arith)
        ]
      ]

  vmm_resolve-Low : (pml4 : ℕ) → Low (vmm_resolve pml4 v s)
  unfolding vmm_resolve
  vmm_resolve-Low pml4 =
      let e = s.entry pml4 (pml4_index v) in
      elim (Bool-cases (pml4 == 0)) [
        | inl null ↦ rw (vmm_resolve, null) tt
        | inr ok ↦ elim (Bool-cases (present e)) [
          | inr gone ↦ rw (vmm_resolve, ok, gone) tt
          | inl there ↦ rw (vmm_resolve, ok, there) (resolve_pdpt-Low (clear_flags e) (bit_and e 6))
        ]
      ]

kernel_ptr-view :
    (hhdm need p : ℕ) (o : Option (ℕ × ℕ))
    → hhdm + 2 ^ 41 ≤ 2 ^ 64
    → Low o
    → kernel_ptr hhdm need o ≡ some p
    → (hhdm ≤ p) × (p < hhdm + 2 ^ 41)
kernel_ptr-view hhdm need p none fits low h = absurd (none≢some h)
kernel_ptr-view hhdm need p (some (phys, flags)) fits low h =
    elim (Bool-cases (bit_and flags need == need)) [
      | inr denied ↦ absurd (none≢some (rw denied at h))
      | inl granted ↦
          let at : (phys + hhdm) % 2 ^ 64 ≡ p = some-injective (rw granted at h) in
          (omega arith, omega arith)
    ]

-- With entries below 2^40, the bytes of a task lie in the first 2^41 bytes of the kernel's view of
-- physical memory.
pub user_page_translate-view :
    (hhdm pml4 need : ℕ) (s : Vm) (v p : ℕ)
    → hhdm + 2 ^ 41 ≤ 2 ^ 64
    → ((t i : ℕ) → s.entry t i < 2 ^ 40)
    → user_page_translate hhdm pml4 need s v ≡ some p
    → (hhdm ≤ p) × (p < hhdm + 2 ^ 41)
unfolding user_page_translate
user_page_translate-view hhdm pml4 need s v p fits small h =
    kernel_ptr-view hhdm need p (vmm_resolve pml4 v s) fits (vmm_resolve-Low v s small pml4) h

-- The range is empty, or lies in the user's addresses.
abbrev pub InUser : ℕ → ℕ → Type 0
InUser addr len = (len ≡ 0) ⊎ ((user_min_addr ≤ addr) × (addr + len ≤ user_space_limit))

-- user_range_valid accepts exactly the ranges that are empty or lie in the user's addresses.
pub user_range_valid_iff : (addr len : ℕ) → (user_range_valid addr len ≡ true) ↔ InUser addr len
unfolding user_range_valid
user_range_valid_iff addr len = ground arith

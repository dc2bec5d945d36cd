-- ===== src/Vmm/Pages.antt =====
-- core/memory/vmm.c: what vmm_map_page and vmm_unmap_page do to the pages of an address space.
use bomboclaat_os.Base.{
  ℕ, suc, ◌+◌, ◌*◌, ◌/◌, ◌%◌, ◌^◌, ◌<◌, ◌≡◌, refl, sym, ap, ap₂, ◌∙◌, ◌≢◌, inl, inr, true, Option,
  none, some, List, [], ◌∷◌, ◌==◌, ==_iff, if◌then◌else◌, Bool-cases, arith, false≢true,
}
use bomboclaat_os.Vmm.Table.{
  Tables, Vm, present, clear_flags, pml4_index, pdpt_index, pd_index, pt_index, put_entry,
}
use bomboclaat_os.Vmm.Tree.{
  Role, IsUser, IsTree, walk, IsPath, put_hit, put_miss, same_entry, levels_apart,
}

-- The indices of an address.
abbrev pub path : ℕ → List ℕ
path virt = pml4_index virt ∷ pdpt_index virt ∷ pd_index virt ∷ pt_index virt ∷ []

-- The entry of the page that the address lies in, if there is one.
abbrev pub leaf : ℕ → ℕ → Vm → Option ℕ
leaf root virt s = walk (path virt) root s.entry

-- The lower half of the addresses is the user's.
abbrev pub user_half : ℕ
user_half = 2 ^ 47

pub path-IsPath : (virt : ℕ) → virt < user_half → IsPath 3 (path virt)
path-IsPath virt h =
    let i4 : IsUser 3 (pml4_index virt) = (omega arith, λ e. omega arith) in
    let i3 : IsUser 2 (pdpt_index virt) = (omega arith, λ e. omega arith) in
    let i2 : IsUser 1 (pd_index virt) = (omega arith, λ e. omega arith) in
    let i1 : IsUser 0 (pt_index virt) = (omega arith, λ e. omega arith) in
    (i4, (2, refl, (i3, (1, refl, (i2, (0, refl, (refl, i1)))))))

-- The number of an entry of the lowest level, from the number of its table.
abbrev number : ℕ → List ℕ → ℕ
number pre [] = pre
number pre (i ∷ is) = number (pre * 512 + i) is

abbrev place_number : Option (ℕ × ℕ) → ℕ
place_number none = 0
place_number (some (level, pre)) = pre

-- A write to an entry of the lowest level changes no other walk.
walk_miss :
    (root : ℕ) (role : Role) (s : Vm) (pt pre i e : ℕ)
    → IsTree root role s
    → role pt ≡ some (0, pre)
    → (js : List ℕ) (u k q : ℕ) → role u ≡ some (k, q)
    → IsPath k js
    → number q js ≢ pre * 512 + i
    → walk js u (put_entry pt i e s.entry) ≡ walk js u s.entry
walk_miss root role s pt pre i e tree place [] u k q h path ne = absurd path
walk_miss root role s pt pre i e tree place (j ∷ []) u k q h path ne = elim (same_entry pt i u j) [
  | inr other ↦ let m = put_miss pt i e s.entry u j other in rw m refl
  | inl (x, y) ↦
      absurd (ne (ap₂ (λ (a b : ℕ). a * 512 + b) (ap place_number (sym h ∙ ap role x ∙ place)) y))
]
walk_miss root role s pt pre i e tree place (j ∷ x ∷ js) u k q h (user, (k', lev, path)) ne =
    let h' : role u ≡ some (suc k', q) = h ∙ ap (λ (n : ℕ). some (n, q)) lev in
    let user' : IsUser (suc k') j = rw lev at user in
    let m =
      put_miss pt i e s.entry u j (inl (λ same. levels_apart role pt u (sym same) place h')) in
    elim (Bool-cases (present (s.entry u j))) [
      | inr gone ↦ rw (m, gone) refl
      | inl there ↦
          rw (m, there)
            (walk_miss root role s pt pre i e tree place (x ∷ js) (clear_flags (s.entry u j)) k'
              (q * 512 + j) (tree.child u k' q j h' user' there).0 path ne)
    ]

-- The entry `i` of the table at `t` leads to the table at `t'`.
abbrev pub Leads : Tables → ℕ → ℕ → ℕ → Type 0
Leads entry t i t' = (present (entry t i) ≡ true) × (clear_flags (entry t i) ≡ t')

walk_hit :
    (entry : Tables) (root t3 t2 pt i4 i3 i2 i1 e : ℕ)
    → Leads entry root i4 t3
    → Leads entry t3 i3 t2
    → Leads entry t2 i2 pt
    → root ≢ pt
    → t3 ≢ pt
    → t2 ≢ pt
    → walk (i4 ∷ i3 ∷ i2 ∷ i1 ∷ []) root (put_entry pt i1 e entry)
      ≡ (if present e then some e else none)
walk_hit entry root t3 t2 pt i4 i3 i2 i1 e (p4, c4) (p3, c3) (p2, c2) n4 n3 n2 =
    let m4 = put_miss pt i1 e entry root i4 (inl n4) in
    let m3 = put_miss pt i1 e entry t3 i3 (inl n3) in
    let m2 = put_miss pt i1 e entry t2 i2 (inl n2) in
    rw (m4, p4, c4, m3, p3, c3, m2, p2, c2, put_hit pt i1 e entry) refl

-- A write to an entry of the lowest level keeps the tree.
pub leaf_IsTree :
    (root : ℕ) (role : Role) (s : Vm) (pt pre i e : ℕ)
    → IsTree root role s
    → role pt ≡ some (0, pre)
    → IsTree root role (record s { entry = put_entry pt i e s.entry })
leaf_IsTree root role s pt pre i e tree place = record {
  valid = tree.valid;
  some_frames = tree.some_frames;
  addressable = tree.addressable;
  at_root = tree.at_root;
  child = λ u k q j h us p.
      let m =
        put_miss pt i e s.entry u j (inl (λ same. levels_apart role pt u (sym same) place h)) in
      let c = tree.child u k q j h us (sym (ap present m) ∙ p) in
      (ap (λ (v : ℕ). role (clear_flags v)) m ∙ c.0, ap (λ (v : ℕ). v / 128 % 2) m ∙ c.1);
  held = tree.held;
}

-- Each page of the user's half is as before, but for the one of `virt`, whose entry is `e` now.
abbrev pub OnePage : ℕ → ℕ → Option ℕ → Vm → Vm → Type 0
OnePage root virt e s s' =
    (v : ℕ)
    → v < user_half
    → leaf root v s' ≡ (if v / 4096 == virt / 4096 then e else leaf root v s)

-- A write to the entry of `virt` in its table.
pub leaf-OnePage :
    (root : ℕ) (role : Role) (s : Vm) (t3 t2 pt virt e : ℕ)
    → IsTree root role s
    → virt < user_half
    → role pt
      ≡ some (0, ((0 * 512 + pml4_index virt) * 512 + pdpt_index virt) * 512 + pd_index virt)
    → {l3 l2 q3 q2 : ℕ} → role t3 ≡ some (suc l3, q3)
    → role t2 ≡ some (suc l2, q2)
    → Leads s.entry root (pml4_index virt) t3
    → Leads s.entry t3 (pdpt_index virt) t2
    → Leads s.entry t2 (pd_index virt) pt
    → OnePage root virt
        (if present e then some e else none)
        s
        (record s { entry = put_entry pt (pt_index virt) e s.entry })
leaf-OnePage root role s t3 t2 pt virt e tree user place h3 h2 a4 a3 a2 v hv =
    elim (Bool-cases (v / 4096 == virt / 4096)) [
      | inl same ↦
          let page : v / 4096 ≡ virt / 4096 = (==_iff _ _).0 same in
          let e4 : pml4_index v ≡ pml4_index virt = omega arith in
          let e3 : pdpt_index v ≡ pdpt_index virt = omega arith in
          let e2 : pd_index v ≡ pd_index virt = omega arith in
          let e1 : pt_index v ≡ pt_index virt = omega arith in
          rw (same, e4, e3, e2, e1)
            (walk_hit s.entry root t3 t2 pt (pml4_index virt) (pdpt_index virt) (pd_index virt)
              (pt_index virt) e a4 a3 a2
              (λ eq. levels_apart role pt root (sym eq) place tree.at_root)
              (λ eq. levels_apart role pt t3 (sym eq) place h3)
              (λ eq. levels_apart role pt t2 (sym eq) place h2))
      | inr other ↦ rw other (
          walk_miss root role s pt _ (pt_index virt) e tree place (path v) root 3 0 tree.at_root
            (path-IsPath v hv) (λ eq. false≢true (sym other ∙ (==_iff _ _).1 (omega arith))))
    ]

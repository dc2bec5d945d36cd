-- ===== src/Vmm/Grow.antt =====
-- core/memory/vmm.c: next_table keeps the tree, with a new table or without.
use bomboclaat_os.Base.{
  ℕ, zero, suc, ◌+◌, ◌*◌, ◌/◌, ◌%◌, ◌^◌, ◌≤◌, ◌<◌, ◌≡◌, refl, sym, ap, ◌∙◌, ◌≢◌, ◌⊎◌, inl, inr,
  true, false, Option, none, some, List, ◌==◌, ==_iff, ==_false, if◌then◌else◌, Bool-cases, bit_or,
  arith, false≢true,
}
use bomboclaat_os.Base.Or.{bit_or-even, bit_or-bit_7, bit_or-page}
use bomboclaat_os.Pmm.{Pmm, is_used, pmm_alloc_frame}
use bomboclaat_os.Pmm.Frames.{Took, AllocResult, pmm_alloc_frame-AllocResult}
use bomboclaat_os.Vmm.Table.{Vm, present, clear_flags, put_entry, clear_table}
use bomboclaat_os.Vmm.Map.{next_table}
use bomboclaat_os.Vmm.Tree.{
  Role, IsUser, IsTree, walk, IsPath, AreFlags, Extended, put_hit, put_miss, same_entry,
  walk-SameWalks, levels_apart,
}

widened_present : (e flags : ℕ) → AreFlags flags → present (bit_or e flags) ≡ true
widened_present e flags f =
    let odd : bit_or e flags % 2 ≡ 1 = omega (arith, bit_or-even e flags, f.is_present) in
    rw odd refl

widened_target : (e flags : ℕ) → AreFlags flags → clear_flags (bit_or e flags) ≡ clear_flags e
widened_target e flags f = ap (λ (n : ℕ). n % 2 ^ 40 * 4096) (bit_or-page e flags f.low)

widened_small : (e flags : ℕ) → AreFlags flags → e / 128 % 2 ≡ 0 → bit_or e flags / 128 % 2 ≡ 0
widened_small e flags f h = omega (arith, bit_or-bit_7 e flags, f.small)

module _ (root : ℕ) (role : Role) (s : Vm) (tree : IsTree root role s) (t l pre i flags : ℕ)
    (place : role t ≡ some (suc l, pre)) (user : IsUser (suc l) i) (f : AreFlags flags) where
  -- The entry is present: flags are added to it.
  widened_kept :
      present (s.entry t i) ≡ true
      → (u j : ℕ)
      → let e' = put_entry t i (bit_or (s.entry t i) flags) s.entry u j in
        (present e' ≡ present (s.entry u j)) × (clear_flags e' ≡ clear_flags (s.entry u j))
  widened_kept there u j =
      let e = bit_or (s.entry t i) flags in
      elim (same_entry t i u j) [
        | inr other ↦ let m = put_miss t i e s.entry u j other in (ap present m, ap clear_flags m)
        | inl (a, b) ↦
            rw (a, b, put_hit t i e s.entry)
              (
                widened_present (s.entry t i) flags f ∙ sym there,
                widened_target (s.entry t i) flags f,
              )
      ]

  widened_small_all :
      present (s.entry t i) ≡ true
      → (u j : ℕ) → present (s.entry u j) ≡ true
      → s.entry u j / 128 % 2 ≡ 0
      → put_entry t i (bit_or (s.entry t i) flags) s.entry u j / 128 % 2 ≡ 0
  widened_small_all there u j p h =
      let e = bit_or (s.entry t i) flags in
      elim (same_entry t i u j) [
        | inr other ↦ ap (λ (n : ℕ). n / 128 % 2) (put_miss t i e s.entry u j other) ∙ h
        | inl (a, b) ↦
            rw (a, b, put_hit t i e s.entry)
              (widened_small (s.entry t i) flags f (tree.child t l pre i place user there).1)
      ]

  widened_Extended :
      present (s.entry t i) ≡ true
      → let e = bit_or (s.entry t i) flags in
        Extended root t i
          (clear_flags e)
          (l, pre * 512 + i)
          role
          s
          (record s { entry = put_entry t i e s.entry })
  widened_Extended there =
      let e = bit_or (s.entry t i) flags in
      let entry' = put_entry t i e s.entry in
      let hit = put_hit t i e s.entry in
      let same = widened_kept there in
      let small' = widened_small_all there in
      let target = tree.child t l pre i place user there in
      record {
        role' = role;
        tree = record {
          valid = tree.valid;
          some_frames = tree.some_frames;
          addressable = tree.addressable;
          at_root = tree.at_root;
          child = λ u k q j h us p.
              let (p', c) = same u j in
              let old = tree.child u k q j h us (sym p' ∙ p) in
              (ap role c ∙ old.0, small' u j (sym p' ∙ p) old.1);
          held = tree.held;
        };
        grows = λ u n h. h;
        at = ap role (widened_target (s.entry t i) flags f) ∙ target.0;
        linked = (ap present hit ∙ widened_present (s.entry t i) flags f, ap clear_flags hit);
        kept = λ u j n h k. ((same u j).0 ∙ k, (same u j).1);
        walks = walk-SameWalks root role s entry' tree (record {
          leaf = λ u q j h.
              put_miss t i e s.entry u j (inl (λ same'. levels_apart role u t same' h place));
          inner = λ u k q j h. inl (same u j);
        });
      }

-- The place of the table below entry `i`.
abbrev place_below : ℕ → Option (ℕ × ℕ) → Option (ℕ × ℕ)
place_below i none = none
place_below i (some (zero, pre)) = none
place_below i (some (suc l, pre)) = some (l, pre * 512 + i)

-- A new table in the frame `a`, which no table of the tree lies in.
abbrev made_role : ℕ → (ℕ × ℕ) → Role → ℕ → Option (ℕ × ℕ)
made_role a node role u = if u == a then some node else role u

module _ (root : ℕ) (role : Role) (s : Vm) (tree : IsTree root role s) (t l pre i flags : ℕ)
    (place : role t ≡ some (suc l, pre)) (user : IsUser (suc l) i) (f : AreFlags flags)
    (gone : present (s.entry t i) ≡ false) (g : ℕ) (pmm' : Pmm) (took : Took s.pmm g pmm')
    (below : g < s.pmm.total_frames) where
  abbrev a : ℕ
  a = g * 4096

  abbrev e : ℕ
  e = bit_or a flags

  abbrev made : Vm
  made = record { pmm = pmm'; entry = put_entry t i e (clear_table a s.entry) }

  fresh : (u : ℕ) (n : ℕ × ℕ) → role u ≡ some n → u ≢ a
  fresh u n h same =
      let used = (tree.held u n h).1 in
      let frame : u / 4096 ≡ g = omega arith in
      false≢true (sym took.was_free ∙ ap (is_used s.pmm.bitmap) (sym frame) ∙ used)

  e_target : clear_flags e ≡ a
  e_target = let page = bit_or-page a flags f.low in omega (arith, tree.addressable)

  made_entry :
      (u j : ℕ) (n : ℕ × ℕ) → role u ≡ some n → (u ≢ t) ⊎ (j ≢ i) → made.entry u j ≡ s.entry u j
  made_entry u j n h other =
      let ne = ==_false u a (fresh u n h) in
      put_miss t i e (clear_table a s.entry) u j other ∙ rw ne refl

  made_empty : (x : ℕ) → made.entry a x ≡ 0
  made_empty x =
      let self = (==_iff a a).1 refl in
      put_miss t i e (clear_table a s.entry) a x (inl (λ h. fresh t _ place (sym h))) ∙ rw self refl

  made_target : clear_flags (made.entry t i) ≡ a
  made_target = ap clear_flags (put_hit t i e (clear_table a s.entry)) ∙ e_target

  made_behind : (z : ℕ) → present (made.entry (clear_flags (made.entry t i)) z) ≡ false
  made_behind z = ap (λ (v : ℕ). present (made.entry v z)) made_target ∙ ap present (made_empty z)

  made_walks :
      (js : List ℕ) (u k q : ℕ)
      → role u ≡ some (k, q)
      → IsPath k js
      → walk js u made.entry ≡ walk js u s.entry
  made_walks = walk-SameWalks root role s made.entry tree (record {
    leaf = λ u q j h. made_entry u j (0, q) h (inl (λ same. levels_apart role u t same h place));
    inner = λ u k q j h. elim (same_entry t i u j) [
      | inr other ↦
          let m = made_entry u j (suc k, q) h other in inl (ap present m, ap clear_flags m)
      | inl (x, y) ↦ inr (rw (x, y) gone, λ z. rw (x, y) (made_behind z))
    ];
  })

  abbrev role' : Role
  role' = made_role a (l, pre * 512 + i) role

  role_made : role' a ≡ some (l, pre * 512 + i)
  role_made = let self = (==_iff a a).1 refl in rw self refl

  role_kept : (u : ℕ) (n : ℕ × ℕ) → role u ≡ some n → role' u ≡ some n
  role_kept u n h = let ne = ==_false u a (fresh u n h) in rw ne h

  -- What has a place now is the new table, or had it before.
  role_cases : (u : ℕ) (n : ℕ × ℕ) → role' u ≡ some n → (u ≡ a) ⊎ (role u ≡ some n)
  role_cases u n h = elim (Bool-cases (u == a)) [
    | inl e ↦ inl ((==_iff u a).0 e)
    | inr e ↦ inr (rw e at h)
  ]

  still_used : (x : ℕ) → is_used s.pmm.bitmap x ≡ true → is_used pmm'.bitmap x ≡ true
  still_used x h = took.frames x ∙ ground (arith, h)

  made_child :
      (u k q j : ℕ)
      → role' u ≡ some (suc k, q)
      → IsUser (suc k) j
      → present (made.entry u j) ≡ true
      → (role' (clear_flags (made.entry u j)) ≡ some (k, q * 512 + j))
        × (made.entry u j / 128 % 2 ≡ 0)
  made_child u k q j h us p = elim (role_cases u (suc k, q) h) [
    | inl new ↦ absurd (false≢true (sym (rw new (ap present (made_empty j))) ∙ p))
    | inr old ↦ elim (same_entry t i u j) [
      | inr other ↦
          let m = made_entry u j (suc k, q) old other in
          let c = tree.child u k q j old us (sym (ap present m) ∙ p) in
          (
            ap (λ (v : ℕ). role' (clear_flags v)) m ∙ role_kept _ _ c.0,
            ap (λ (v : ℕ). v / 128 % 2) m ∙ c.1,
          )
      | inl (x, y) ↦
          let node = sym (sym place ∙ ap role (sym x) ∙ old) in
          rw (x, y)
            (
              ap role' made_target ∙ role_made ∙ sym (ap (place_below i) node),
              ap (λ (v : ℕ). v / 128 % 2) (put_hit t i e (clear_table a s.entry))
                  ∙ widened_small a flags f (omega arith),
            )
    ]
  ]

  made-Extended : Extended root t i (clear_flags e) (l, pre * 512 + i) role s made
  made-Extended = record {
    role' = role';
    tree = record {
      valid = took.valid;
      some_frames = omega (arith, took.total, tree.some_frames);
      addressable = omega (arith, took.total, tree.addressable);
      at_root = role_kept root (3, 0) tree.at_root;
      child = made_child;
      held = λ u n h. elim (role_cases u n h) [
        | inl new ↦
            let frame : a / 4096 ≡ g = omega arith in
            rw new (omega arith, ap (is_used pmm'.bitmap) frame ∙ took.frames g ∙ ground arith)
        | inr old ↦ let (x, y) = tree.held u n old in (x, still_used (u / 4096) y)
      ];
    };
    grows = role_kept;
    at = ap role' e_target ∙ role_made;
    linked = (
      ap present (put_hit t i e (clear_table a s.entry)) ∙ widened_present a flags f,
      ap clear_flags (put_hit t i e (clear_table a s.entry)),
    );
    kept = λ u j n h p. elim (same_entry t i u j) [
      | inr other ↦ let m = made_entry u j n h other in (ap present m ∙ p, ap clear_flags m)
      | inl (x, y) ↦ absurd (false≢true (sym (rw (x, y) gone) ∙ p))
    ];
    walks = made_walks;
  }

-- What next_table may return: a table, and the tree has grown by it at most; or nothing, when no
-- frame is free.
abbrev pub IsNext : ℕ → Role → Vm → ℕ → ℕ → (ℕ × ℕ) → Option (ℕ × Vm) → Type 0
IsNext root role s t i node none =
    (g : ℕ) → 1 ≤ g → g < s.pmm.total_frames → is_used s.pmm.bitmap g ≡ true
IsNext root role s t i node (some (t', s')) = Extended root t i t' node role s s'

pub next_table-IsNext :
    (root : ℕ) (role : Role) (s : Vm) (t l pre i flags : ℕ)
    → IsTree root role s
    → role t ≡ some (suc l, pre)
    → IsUser (suc l) i
    → AreFlags flags
    → IsNext root role s t i (l, pre * 512 + i) (next_table t i flags s)
unfolding next_table
next_table-IsNext root role s t l pre i flags tree place user f =
    elim (Bool-cases (present (s.entry t i))) [
      | inl there ↦ rw there (widened_Extended root role s tree t l pre i flags place user f there)
      | inr gone ↦ rw gone (
          go (pmm_alloc_frame s.pmm).0 (pmm_alloc_frame s.pmm).1
            (pmm_alloc_frame-AllocResult s.pmm tree.valid tree.some_frames) gone)
    ]
  where
    go :
        (a : ℕ) (pmm' : Pmm)
        → AllocResult s.pmm 1 (a, pmm')
        → present (s.entry t i) ≡ false
        → IsNext root role s t i
            (l, pre * 512 + i)
            (if a == 0
              then none
              else some (
                clear_flags (bit_or a flags),
                record {
                  pmm = pmm';
                  entry = put_entry t i (bit_or a flags) (clear_table a s.entry);
                },
              ))
    go got pmm' (inl (null, _, full)) gone = let z = (==_iff got 0).1 null in rw z full
    go got pmm' (inr (g, at, lo, below, _, took)) gone =
        let nz : (g * 4096 == 0) ≡ false = ground arith in
        rw (at, nz)
          (made-Extended root role s tree t l pre i flags place user f gone g pmm' took below)

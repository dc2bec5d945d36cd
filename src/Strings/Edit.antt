-- ===== src/Strings/Edit.antt =====
-- lib/string.c: reverse, and where it puts each byte.
use bomboclaat_os.Base.{
  ℕ, zero, suc, ◌+◌, ◌-◌, ◌≤◌, ◌<◌, ◌≡◌, ◌≢◌, refl, sym, ap, ◌∙◌, ◌⊎◌, inl, inr, true, false, ◌&&◌,
  List, ◌==◌, ==_iff, ltb, leb, if◌then◌else◌, Bool-cases, length, get_or, set, length-set,
  get_or-set_self, get_or-set_ne, arith, false≢true,
}
use native.Mathlib.Decide.{dec_lt}

-- The loop of reverse, by the rounds that are left.
unfoldable pub reverse_from : ℕ → ℕ → ℕ → List ℕ → List ℕ
reverse_from zero start end str = str
reverse_from (suc rounds) start end str =
    let temp = get_or str start 0 in
    let swapped = set (set str start (get_or str end 0)) end temp in
    let rest = reverse_from rounds (start + 1) (end - 1) swapped in
    if ltb start end then rest else str

unfoldable pub reverse : List ℕ → ℕ → List ℕ
reverse str length = reverse_from length 0 (length - 1) str

-- The byte at `i` once the bytes from `start` to `end` are in reverse order.
abbrev pub mirrored : ℕ → ℕ → List ℕ → ℕ → ℕ
mirrored start end str i =
    if leb start i && leb i end then get_or str (start + end - i) 0 else get_or str i 0

get_or-swapped :
    (str : List ℕ) (a b i : ℕ)
    → a < b
    → b < length str
    → get_or (set (set str a (get_or str b 0)) b (get_or str a 0)) i 0
      ≡ (if i == a then get_or str b 0 else if i == b then get_or str a 0 else get_or str i 0)
get_or-swapped str a b i lt inside =
    let str1 = set str a (get_or str b 0) in
    let len = length-set str a (get_or str b 0) in
    elim (Bool-cases (i == b)) [
      | inl e ↦
          let same : i ≡ b = (==_iff i b).0 e in
          let other : (i == a) ≡ false = ground arith in
          rw (other, e)
            (ap (λ (k : ℕ). get_or (set str1 b (get_or str a 0)) k 0) same
              ∙ get_or-set_self str1 b (get_or str a 0) 0 (omega arith))
      | inr ne ↦
          let miss : b ≢ i = λ h. false≢true (sym ne ∙ (==_iff i b).1 (sym h)) in
          get_or-set_ne str1 b i (get_or str a 0) 0 miss ∙ elim (Bool-cases (i == a)) [
            | inl e ↦
                let same : i ≡ a = (==_iff i a).0 e in
                rw e (
                  ap (λ (k : ℕ). get_or str1 k 0) same
                  ∙ get_or-set_self str a (get_or str b 0) 0 (omega arith))
            | inr ne' ↦
                let miss' : a ≢ i = λ h. false≢true (sym ne' ∙ (==_iff i a).1 (sym h)) in
                rw (ne', ne) (get_or-set_ne str a i (get_or str b 0) 0 miss')
          ]
    ]

mirrored_done :
    (start end : ℕ) (str : List ℕ) (i : ℕ) → end ≤ start → mirrored start end str i ≡ get_or str i 0
mirrored_done start end str i le = elim (Bool-cases (leb start i && leb i end)) [
  | inl hit ↦
      let same : start + end - i ≡ i = ground arith in rw hit (ap (λ (k : ℕ). get_or str k 0) same)
  | inr out ↦ rw out refl
]

pub mirrored_in :
    (start end : ℕ) (str : List ℕ) (i j : ℕ)
    → start ≤ i
    → i ≤ end
    → start + end - i ≡ j
    → mirrored start end str i ≡ get_or str j 0
mirrored_in start end str i j lo hi e =
    let hit : (leb start i && leb i end) ≡ true = ground arith in
    rw hit (ap (λ (k : ℕ). get_or str k 0) e)

pub mirrored_out :
    (start end : ℕ) (str : List ℕ) (i : ℕ)
    → (i < start) ⊎ (end < i)
    → mirrored start end str i ≡ get_or str i 0
mirrored_out start end str i out =
    let miss : (leb start i && leb i end) ≡ false = ground arith in rw miss refl

-- One exchange at the ends, and the rest in reverse order.
mirrored_step :
    (start end : ℕ) (str swapped : List ℕ) (i : ℕ)
    → start < end
    → ((j : ℕ)
        → get_or swapped j 0 ≡ (
            if j == start
            then get_or str end 0
            else if j == end
            then get_or str start 0
            else get_or str j 0))
    → mirrored (start + 1) (end - 1) swapped i ≡ mirrored start end str i
mirrored_step start end str swapped i lt at = elim (dec_lt i start) [
  | yes below ↦
      mirrored_out (start + 1) (end - 1) swapped i (inl (omega arith))
      ∙ at i
      ∙ kept i (inl below)
      ∙ sym (mirrored_out start end str i (inl below))
  | no a ↦ elim (dec_lt end i) [
    | yes above ↦
        mirrored_out (start + 1) (end - 1) swapped i (inr (omega arith))
        ∙ at i
        ∙ kept i (inr (inr above))
        ∙ sym (mirrored_out start end str i (inr above))
    | no b ↦ elim (dec_lt start i) [
      | no first ↦
          mirrored_out (start + 1) (end - 1) swapped i (inl (omega arith))
          ∙ at i
          ∙ ground (arith)
          ∙ sym (mirrored_in start end str i end (omega arith) (omega arith) (omega arith))
      | yes c ↦ elim (dec_lt i end) [
        | no last ↦
            mirrored_out (start + 1) (end - 1) swapped i (inr (omega arith))
            ∙ at i
            ∙ ground (arith)
            ∙ sym (mirrored_in start end str i start (omega arith) (omega arith) (omega arith))
        | yes d ↦
            mirrored_in (start + 1) (end - 1) swapped i (start + end - i) (omega arith)
              (omega arith) (omega arith)
            ∙ at (start + end - i)
            ∙ kept (start + end - i) (inr (inl (omega arith, omega arith)))
            ∙ sym (mirrored_in start end str i (start + end - i) (omega arith) (omega arith) refl)
      ]
    ]
  ]
]
  where
    kept :
        (j : ℕ)
        → (j < start) ⊎ (((start < j) × (j < end)) ⊎ (end < j))
        → (if j == start
            then get_or str end 0
            else if j == end
            then get_or str start 0
            else get_or str j 0)
          ≡ get_or str j 0
    kept j out =
        let a : (j == start) ≡ false = ground arith in
        let b : (j == end) ≡ false = ground arith in rw (a, b) refl

reverse_from_lem :
    (rounds start end : ℕ) (str : List ℕ) (i : ℕ)
    → end < length str
    → end ≤ start + rounds + rounds
    → get_or (reverse_from rounds start end str) i 0 ≡ mirrored start end str i
unfolding reverse_from
reverse_from_lem zero start end str i inside enough =
    sym (mirrored_done start end str i (omega arith))
reverse_from_lem (suc rounds) start end str i inside enough = elim (Bool-cases (ltb start end)) [
  | inr done ↦ rw done (sym (mirrored_done start end str i (ground arith)))
  | inl more ↦
      let str1 = set str start (get_or str end 0) in
      let swapped = set str1 end (get_or str start 0) in
      let len = length-set str start (get_or str end 0) in
      let len' = length-set str1 end (get_or str start 0) in
      let lt : start < end = ground arith in
      rw more (
        reverse_from_lem rounds (start + 1) (end - 1) swapped i (omega arith) (omega arith)
        ∙ mirrored_step start end str swapped i lt (λ j. get_or-swapped str start end j lt inside))
]

-- reverse puts the first `len` bytes of the object in reverse order and leaves the others.
pub reverse-mirrored :
    (str : List ℕ) (len i : ℕ)
    → 0 < len
    → len ≤ length str
    → get_or (reverse str len) i 0 ≡ mirrored 0 (len - 1) str i
unfolding reverse
reverse-mirrored str len i some_bytes inside =
    reverse_from_lem len 0 (len - 1) str i (omega arith) (omega arith)

length-reverse_from :
    (rounds start end : ℕ) (str : List ℕ) → length (reverse_from rounds start end str) ≡ length str
unfolding reverse_from
length-reverse_from zero start end str = refl
length-reverse_from (suc rounds) start end str =
    let str1 = set str start (get_or str end 0) in
    let swapped = set str1 end (get_or str start 0) in
    let rest = length-reverse_from rounds (start + 1) (end - 1) swapped in
    let len = length-set str start (get_or str end 0) in
    let len' = length-set str1 end (get_or str start 0) in
    elim (Bool-cases (ltb start end)) [
      | inl more ↦ rw more (rest ∙ len' ∙ len)
      | inr done ↦ rw done refl
    ]

pub length-reverse : (str : List ℕ) (len : ℕ) → length (reverse str len) ≡ length str
unfolding reverse
length-reverse str len = length-reverse_from len 0 (len - 1) str

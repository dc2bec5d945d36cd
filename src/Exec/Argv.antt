-- ===== src/Exec/Argv.antt =====
-- core/tasks/exec.c: the strings that exec_copy_args leaves in its buffer.
use bomboclaat_os.Base.{
  ℕ, zero, suc, ◌+◌, ◌-◌, ◌*◌, ◌%◌, ◌^◌, ◌≤◌, ◌<◌, ◌≡◌, ◌≢◌, refl, sym, ap, ◌∙◌, ◌⊎◌, inl, inr,
  Bool, true, false, some, List, [], ◌∷◌, length, ◌==◌, if◌then◌else◌, Bool-cases, false≢true,
  arith, subst,
}
use bomboclaat_os.Base.Int.{ℤ, pos, negsuc}
use bomboclaat_os.Memtools.{Mem}
use bomboclaat_os.Userspace.{Context, user_page_translate, copy_from_user, copy_string_from_user}
use bomboclaat_os.Userspace.From.{Out, FromOutcome, copy_from_user-FromOutcome}
use bomboclaat_os.Userspace.Line.{LineOutcome, copy_string_from_user-LineOutcome}
use bomboclaat_os.Exec.Elf.{load_u64}
use bomboclaat_os.Exec.Validate.{efault, e2big}
use bomboclaat_os.Exec.Args.{
  exec_arg_bytes, arg_bytes, ArgsResult, args_ok, args_failed, with_arg, copy_args,
}

-- The pointers are those of strings that lie one behind the other from `from` on, up to `limit`.
abbrev pub IsArgs : List ℕ → (from limit : ℕ) → Mem → Type 0
IsArgs [] from limit mem = from ≤ limit
IsArgs (p ∷ ps) from limit mem =
    (p ≡ from)
    × ((n : ℕ) × ((i : ℕ) → i < n → mem (p + i) ≢ 0)
        × (mem (p + n) ≡ 0)
        × IsArgs ps (from + n + 1) limit mem)

-- No page of the task holds a byte of the kernel's struct or of the variable, these are apart, and the
-- kernel's view of physical memory begins at a page's address.
pub record IsPrivate (c : Context) (ka user_ptr : ℕ) : Type 0 where
  pub aligned : c.hhdm_offset % 4096 ≡ 0
  pub apart : (user_ptr + 8 ≤ ka) ⊎ (ka + 4112 ≤ user_ptr)
  pub foreign :
      (pml4 v p : ℕ)
      → c.current_pml4 ≡ some pml4
      → user_page_translate c.hhdm_offset pml4 4 c.vm v ≡ some p
      → Out ka 4112 p × Out user_ptr 8 p

from_outside :
    (c : Context) (dst src len : ℕ) (mem : Mem) (res : ℤ × Mem)
    → FromOutcome c dst src len mem res
    → (q : ℕ) → Out dst len q
    → res.1 q ≡ mem q
from_outside c dst src len mem res (inl (pml4, running, inside, arrived)) q out = arrived.0 q out
from_outside c dst src len mem res (inr (e, why)) q out = ap (λ (r : ℤ × Mem). r.1 q) e

is_length : ℤ → Bool
is_length (pos n) = true
is_length (negsuc n) = false

magnitude : ℤ → ℕ
magnitude (pos n) = n
magnitude (negsuc n) = n

-- A string of length `n` arrived.
abbrev pub Arrives : (dst n max_len : ℕ) → Mem → Mem → Type 0
Arrives dst n max_len mem mem' =
    (n < max_len)
    × ((i : ℕ) → i < n → mem' (dst + i) ≢ 0)
    × (mem' (dst + n) ≡ 0)
    × ((q : ℕ) → Out dst max_len q → mem' q ≡ mem q)

pub line-Arrives :
    (c : Context) (dst src n max_len : ℕ) (mem mem' : Mem)
    → LineOutcome c dst src max_len mem (pos n, mem')
    → Arrives dst n max_len mem mem'
unfolding is_length magnitude
line-Arrives c dst src n max_len mem mem' (inr (e, why)) =
    absurd (false≢true (sym (ap (λ (r : ℤ × Mem). is_length r.0) e)))
line-Arrives c dst src n max_len mem mem' (inl (pml4, running, inr (e, never, outside))) =
    absurd (false≢true (sym (ap is_length e)))
line-Arrives c dst src n max_len mem mem'
      (inl (pml4, running, inl (k, lt, e, text, bytes, outside))) =
    let same : n ≡ k = ap magnitude e ∙ (let z : 0 + k ≡ k = omega arith in z) in
    let (_, (p, place, _, last)) = text k (omega arith) in
    (
      omega arith,
      (λ i h z.
          let (_, (p', place', inner, _)) = text i (omega arith) in
          inner (omega arith) (sym (bytes i p' (omega arith) place') ∙ ap mem' (omega arith) ∙ z)),
      ap mem' (omega arith) ∙ bytes k p (omega arith) place ∙ last refl,
      (λ q out. outside q (omega arith)),
    )

module _ (c : Context) (ka user_ptr argv : ℕ) (private : IsPrivate c ka user_ptr) where
  -- What the loop may return.
  abbrev pub ArgsOutcome : (rounds used : ℕ) → Mem → ArgsResult → Type 0
  ArgsOutcome rounds used mem (args_ok ps mem') =
      (length ps < rounds)
      × IsArgs ps (arg_bytes ka + used) (arg_bytes ka + exec_arg_bytes) mem'
      × ((q : ℕ)
          → Out (arg_bytes ka + used) (exec_arg_bytes - used) q
          → Out user_ptr 8 q
          → mem' q ≡ mem q)
  ArgsOutcome rounds used mem (args_failed e) = Unit

  with_arg-ArgsOutcome :
      (rounds used n : ℕ) (mem mem1 mem2 : Mem) (o : ArgsResult)
      → used ≤ exec_arg_bytes
      → ((q : ℕ) → Out user_ptr 8 q → mem1 q ≡ mem q)
      → Arrives (arg_bytes ka + used) n (exec_arg_bytes - used) mem1 mem2
      → ArgsOutcome rounds (used + n + 1) mem2 o
      → ArgsOutcome (suc rounds) used mem (with_arg (arg_bytes ka + used) o)
  with_arg-ArgsOutcome rounds used n mem mem1 mem2 (args_failed e) some_room kept arrives h = tt
  with_arg-ArgsOutcome rounds used n mem mem1 mem2 (args_ok ps mem') some_room kept
        (lt, nonzero, end, outside) (count, args, outside') =
      let apart = private.apart in
      let at = arg_bytes ka + used in
      let stays : (i : ℕ) → i < n + 1 → mem' (at + i) ≡ mem2 (at + i) =
        λ i h. outside' (at + i) (inl (omega arith)) (omega arith) in
      (
        omega arith,
        (
          refl,
          (
            n,
            (λ i h z. nonzero i h (sym (stays i (omega arith)) ∙ z)),
            stays n (omega arith) ∙ end,
            subst (λ from. IsArgs ps from (arg_bytes ka + exec_arg_bytes) mem') (omega arith) args,
          ),
        ),
        (λ q out out'. outside' q (omega arith) out' ∙ outside q out ∙ kept q out'),
      )

  -- The strings that copy_args has copied lie one behind the other in the buffer, at the pointers
  -- that it returns, fewer than the rounds.
  pub copy_args-ArgsOutcome :
      (rounds i used : ℕ) (mem : Mem)
      → used ≤ exec_arg_bytes
      → ArgsOutcome rounds used mem (copy_args c ka user_ptr argv rounds i used mem)
  unfolding copy_args
  copy_args-ArgsOutcome zero i used mem some_room = tt
  copy_args-ArgsOutcome (suc rounds) i used mem some_room =
      let from = (argv + i * 8) % 2 ^ 64 in
      let first = copy_from_user c user_ptr from 8 mem in
      let ptr = load_u64 user_ptr first.1 in
      let at = arg_bytes ka + used in
      let fetched =
        copy_from_user-FromOutcome c user_ptr from 8 mem private.aligned
          (λ pml4 running j p lt h. (private.foreign pml4 (from + j) p running h).1) in
      let line =
        copy_string_from_user-LineOutcome c at ptr (exec_arg_bytes - used) first.1 private.aligned
          (omega arith)
          (λ pml4 running j p lt h.
            let out = (private.foreign pml4 (ptr + j) p running h).0 in omega arith) in
      go first.0 first.1 (from_outside c user_ptr from 8 mem first fetched)
        (copy_string_from_user c at ptr (exec_arg_bytes - used) first.1).0
        (copy_string_from_user c at ptr (exec_arg_bytes - used) first.1).1 line
        (λ n mem2 lt. copy_args-ArgsOutcome rounds (i + 1) (used + n + 1) mem2 (omega arith))
    where
      next :
          (mem1 : Mem)
          → ((q : ℕ) → Out user_ptr 8 q → mem1 q ≡ mem q)
          → (len : ℤ) (mem2 : Mem)
          → LineOutcome c
              (arg_bytes ka + used)
              (load_u64 user_ptr mem1)
              (exec_arg_bytes - used)
              mem1
              (len, mem2)
          → ((n : ℕ) (mem2 : Mem)
              → n < exec_arg_bytes - used
              → ArgsOutcome rounds
                  (used + n + 1)
                  mem2
                  (copy_args c ka user_ptr argv rounds (i + 1) (used + n + 1) mem2))
          → ArgsOutcome (suc rounds) used mem (elim len [
            | pos n ↦
                with_arg
                  (arg_bytes ka + used)
                  (copy_args c ka user_ptr argv rounds (i + 1) (used + n + 1) mem2)
            | negsuc _ ↦ args_failed e2big
          ])
      next mem1 kept (negsuc n) mem2 line rest = tt
      next mem1 kept (pos n) mem2 line rest =
          let arrives =
            line-Arrives c (arg_bytes ka + used) (load_u64 user_ptr mem1) n (exec_arg_bytes - used)
              mem1 mem2 line in
          with_arg-ArgsOutcome rounds used n mem mem1 mem2 _ some_room kept arrives
            (rest n mem2 arrives.0)

      go :
          (r : ℤ) (mem1 : Mem)
          → ((q : ℕ) → Out user_ptr 8 q → mem1 q ≡ mem q)
          → (len : ℤ) (mem2 : Mem)
          → LineOutcome c
              (arg_bytes ka + used)
              (load_u64 user_ptr mem1)
              (exec_arg_bytes - used)
              mem1
              (len, mem2)
          → ((n : ℕ) (mem2 : Mem)
              → n < exec_arg_bytes - used
              → ArgsOutcome rounds
                  (used + n + 1)
                  mem2
                  (copy_args c ka user_ptr argv rounds (i + 1) (used + n + 1) mem2))
          → ArgsOutcome (suc rounds) used mem (elim r [
            | pos zero ↦ if load_u64 user_ptr mem1 == 0 then args_ok [] mem1 else elim len [
              | pos n ↦
                  with_arg
                    (arg_bytes ka + used)
                    (copy_args c ka user_ptr argv rounds (i + 1) (used + n + 1) mem2)
              | negsuc _ ↦ args_failed e2big
            ]
            | _ ↦ args_failed efault
          ])
      go (pos zero) mem1 kept len mem2 line rest = elim (Bool-cases (load_u64 user_ptr mem1 == 0)) [
        | inl end ↦ rw end (omega arith, omega arith, (λ q out out'. kept q out'))
        | inr more ↦ rw more (next mem1 kept len mem2 line rest)
      ]
      go (pos (suc n)) mem1 kept len mem2 line rest = tt
      go (negsuc n) mem1 kept len mem2 line rest = tt

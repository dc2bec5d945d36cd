-- ===== src/Exec/Copied.antt =====
-- core/tasks/exec.c: what exec_copy_args hands to execve and spawn.
use bomboclaat_os.Base.{
  ℕ, ◌+◌, ◌≤◌, ◌<◌, ◌≡◌, ◌≢◌, refl, sym, ◌∙◌, inl, inr, not, [], length, ◌==◌, ==_iff,
  if◌then◌else◌, Bool-cases, arith, subst,
}
use bomboclaat_os.Base.Int.{ℤ, pos, negsuc}
use bomboclaat_os.Memtools.{Mem, memset}
use bomboclaat_os.Userspace.{Context, copy_string_from_user}
use bomboclaat_os.Userspace.Line.{LineOutcome, copy_string_from_user-LineOutcome}
use bomboclaat_os.Exec.Validate.{efault, enoent}
use bomboclaat_os.Exec.Args.{
  exec_max_args, exec_max_path, exec_arg_bytes, arg_bytes, ArgsResult, args_ok, args_failed,
  copy_args, exec_copy_args,
}
use bomboclaat_os.Exec.Argv.{
  IsArgs, IsPrivate, Arrives, line-Arrives, ArgsOutcome, copy_args-ArgsOutcome,
}

-- What exec_copy_args may return.
abbrev pub CopiedOutcome : ℕ → ArgsResult → Type 0
CopiedOutcome ka (args_ok ps mem') =
    (length ps < exec_max_args)
    × IsArgs ps (arg_bytes ka) (arg_bytes ka + exec_arg_bytes) mem'
    × (mem' ka ≡ 47)
    × ((n : ℕ) × (n < exec_max_path) × ((i : ℕ) → i < n → mem' (ka + i) ≢ 0) × (mem' (ka + n) ≡ 0))
CopiedOutcome ka (args_failed e) = Unit

module _ (c : Context) (ka user_ptr argv : ℕ) (private : IsPrivate c ka user_ptr) where
  -- The path stays while the arguments are copied.
  path_stays :
      (n : ℕ) (mem0 mem1 : Mem) (o : ArgsResult)
      → Arrives ka n exec_max_path mem0 mem1
      → mem1 ka ≡ 47
      → ArgsOutcome c ka user_ptr argv private exec_max_args 0 mem1 o
      → CopiedOutcome ka o
  path_stays n mem0 mem1 (args_failed e) arrives slash h = tt
  path_stays n mem0 mem1 (args_ok ps mem') (lt, nonzero, end, _) slash (count, args, outside) =
      let apart = private.apart in
      let stays : (q : ℕ) → ka ≤ q → q < ka + exec_max_path → mem' q ≡ mem1 q =
        λ q lo hi. outside q (inl (omega arith)) (omega arith) in
      (
        count,
        subst (λ from. IsArgs ps from (arg_bytes ka + exec_arg_bytes) mem') (omega arith) args,
        stays ka (omega arith) (omega arith) ∙ slash,
        (
          n,
          lt,
          (λ i h z. nonzero i h (sym (stays (ka + i) (omega arith) (omega arith)) ∙ z)),
          stays (ka + n) (omega arith) (omega arith) ∙ end,
        ),
      )

-- If exec_copy_args returns 0, it has at most 31 arguments, their strings lie one behind the other in
-- the buffer of 3584 bytes, at the pointers of argv, and the path is a string in its 256 bytes that
-- begins with a slash. The kernel's struct and its variable for a pointer are to lie apart from each other
-- and from the task's pages, and the kernel's view of physical memory is to begin at a page's address.
pub exec_copy_args-CopiedOutcome :
    (c : Context) (ka user_ptr path argv : ℕ) (mem : Mem)
    → IsPrivate c ka user_ptr
    → CopiedOutcome ka (exec_copy_args c ka user_ptr path argv mem)
unfolding exec_copy_args
exec_copy_args-CopiedOutcome c ka user_ptr path argv mem private =
    let mem0 = memset ka 0 4112 mem in
    let line =
      copy_string_from_user-LineOutcome c ka path exec_max_path mem0 private.aligned (omega arith)
        (λ pml4 running j p lt h.
          let out = (private.foreign pml4 (path + j) p running h).0 in omega arith) in
    go mem0 (copy_string_from_user c ka path exec_max_path mem0).0
      (copy_string_from_user c ka path exec_max_path mem0).1 line
  where
    go :
        (mem0 : Mem) (r : ℤ) (mem1 : Mem)
        → LineOutcome c ka path exec_max_path mem0 (r, mem1)
        → CopiedOutcome ka (elim r [
          | negsuc _ ↦ args_failed efault
          | pos _ ↦
              if not (mem1 ka == 47)
              then args_failed enoent
              else if argv == 0
              then args_ok [] mem1
              else copy_args c ka user_ptr argv exec_max_args 0 0 mem1
        ])
    go mem0 (negsuc n) mem1 line = tt
    go mem0 (pos n) mem1 line =
        let arrives = line-Arrives c ka path n exec_max_path mem0 mem1 line in
        elim (Bool-cases (mem1 ka == 47)) [
          | inr other ↦ rw other tt
          | inl slash ↦
              let first : mem1 ka ≡ 47 = (==_iff (mem1 ka) 47).0 slash in
              elim (Bool-cases (argv == 0)) [
                | inl none_given ↦
                    rw (slash, none_given)
                      (path_stays c ka user_ptr argv private n mem0 mem1 (args_ok [] mem1) arrives
                        first (omega arith, omega arith, (λ q out out'. refl)))
                | inr given ↦
                    rw (slash, given)
                      (path_stays c ka user_ptr argv private n mem0 mem1 _ arrives first (
                        copy_args-ArgsOutcome c ka user_ptr argv private exec_max_args 0 0 mem1
                          (omega arith)))
              ]
        ]

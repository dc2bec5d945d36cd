-- ===== src/Exec/Args.antt =====
-- core/tasks/exec.c: exec_copy_args. The struct exec_args_k is at `ka`: the path, then the pointers,
-- then the bytes of the arguments. `user_ptr` is the variable's address.
use bomboclaat_os.Base.{
  ℕ, zero, suc, ◌+◌, ◌-◌, ◌*◌, ◌%◌, ◌^◌, not, List, [], ◌∷◌, ◌==◌, if◌then◌else◌,
}
use bomboclaat_os.Base.Int.{pos, negsuc}
use bomboclaat_os.Memtools.{Mem, memset}
use bomboclaat_os.Userspace.{Context, copy_from_user, copy_string_from_user}
use bomboclaat_os.Exec.Elf.{load_u64}
use bomboclaat_os.Exec.Validate.{Errno, efault, e2big, enoent}

abbrev pub exec_max_args : ℕ
exec_max_args = 32

abbrev pub exec_max_path : ℕ
exec_max_path = 256

abbrev pub exec_arg_bytes : ℕ
exec_arg_bytes = 3584

-- `ka->buf`, behind the path and 33 pointers.
abbrev pub arg_bytes : ℕ → ℕ
arg_bytes ka = ka + 520

-- `ka->argv` up to `ka->argc`, and the memory; or an error.
pub data ArgsResult : Type 0 where
  args_ok : List ℕ → Mem → ArgsResult
  args_failed : Errno → ArgsResult

abbrev pub with_arg : ℕ → ArgsResult → ArgsResult
with_arg p (args_ok ps mem) = args_ok (p ∷ ps) mem
with_arg p (args_failed e) = args_failed e

-- The loop, with `rounds` arguments left.
unfoldable pub copy_args : Context → (ka user_ptr argv rounds i used : ℕ) → Mem → ArgsResult
copy_args c ka user_ptr argv zero i used mem = args_failed e2big
copy_args c ka user_ptr argv (suc rounds) i used mem =
    let (r, mem1) = copy_from_user c user_ptr ((argv + i * 8) % 2 ^ 64) 8 mem in
    let at = arg_bytes ka + used in
    let (len, mem2) =
      copy_string_from_user c at (load_u64 user_ptr mem1) (exec_arg_bytes - used) mem1 in
    elim r [
      | pos zero ↦ if load_u64 user_ptr mem1 == 0 then args_ok [] mem1 else elim len [
        | pos n ↦ with_arg at (copy_args c ka user_ptr argv rounds (i + 1) (used + n + 1) mem2)
        | negsuc _ ↦ args_failed e2big
      ]
      | _ ↦ args_failed efault
    ]

-- `sizeof(struct exec_args_k)` is 4112. A path begins with a slash, 47.
unfoldable pub exec_copy_args : Context → (ka user_ptr path argv : ℕ) → Mem → ArgsResult
unfolding copy_args
exec_copy_args c ka user_ptr path argv mem =
    let mem0 = memset ka 0 4112 mem in
    let (r, mem1) = copy_string_from_user c ka path exec_max_path mem0 in
    elim r [
      | negsuc _ ↦ args_failed efault
      | pos _ ↦
          if not (mem1 ka == 47)
          then args_failed enoent
          else if argv == 0
          then args_ok [] mem1
          else copy_args c ka user_ptr argv exec_max_args 0 0 mem1
    ]

-- ===== src/UserMemory/Tests.antt =====
-- core/tasks/tasks.c and core/memory/pfault.c: a small heap and a stack in an empty address space.
use bomboclaat_os.Base.{◌≡◌, refl, none, arith}
use bomboclaat_os.Base.Int.{pos, negsuc}
use bomboclaat_os.Vmm.Sample.{bare, bare-IsSpace}
use bomboclaat_os.UserMemory.Fresh.{Machine}
use bomboclaat_os.UserMemory.Heap.{Mm, next_brk, task_sbrk}
use bomboclaat_os.UserMemory.Fault.{user_pf}
use bomboclaat_os.UserMemory.Break.{IsHeap, SbrkOutcome, task_sbrk-SbrkOutcome}
use bomboclaat_os.UserMemory.Growing.{FaultOutcome, user_pf-FaultOutcome}

abbrev machine : Machine
machine = record { hhdm_offset = 0x100000; vm = bare; mem = λ q. 0 }

abbrev heap : Mm
heap = record {
  brk_start = 0x500000;
  brk = 0x501234;
  stack_start = 0x7FFFFFFFF000;
  stack_limit = 0x7FFFFFEFF000;
}

heap-IsHeap : IsHeap heap
heap-IsHeap = record { above = omega arith; below = omega arith; half = omega arith }

below_start_refused : next_brk heap (negsuc 0x1234) ≡ none
unfolding next_brk
below_start_refused = refl

task_sbrk-SbrkOutcome_example :
    SbrkOutcome heap (pos 5000) (task_sbrk 12288 (pos 5000) heap machine)
task_sbrk-SbrkOutcome_example = task_sbrk-SbrkOutcome 12288 (pos 5000) heap machine heap-IsHeap

user_pf-FaultOutcome_example :
    FaultOutcome 12288 6 0x7FFFFFFFEFF8 heap machine (user_pf 12288 6 0x7FFFFFFFEFF8 heap machine)
user_pf-FaultOutcome_example = user_pf-FaultOutcome 12288 6 0x7FFFFFFFEFF8 heap machine bare-IsSpace

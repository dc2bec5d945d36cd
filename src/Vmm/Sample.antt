-- ===== src/Vmm/Sample.antt =====
-- core/memory/vmm.c: an empty address space in a machine of sixteen frames.
use bomboclaat_os.Base.{◌%◌, refl, [], ◌∷◌, arith}
use bomboclaat_os.Base.Bits.{bit_at}
use bomboclaat_os.Pmm.{Pmm, is_used}
use bomboclaat_os.Pmm.Frames.{IsValid}
use bomboclaat_os.Vmm.Table.{Vm}
use bomboclaat_os.Vmm.Tree.{AreFlags}
use bomboclaat_os.Vmm.Mapping.{IsSpace}
use bomboclaat_os.Vmm.Init.{only, only-IsTree}

-- Frames 0, 1 and 3 are used. The pml4 is in frame 3.
abbrev pub sixteen : Pmm
sixteen = record { bitmap = 11 ∷ 0 ∷ []; total_frames = 16; used_frames = 3; usable_frames = 12 }

abbrev pub bare : Vm
bare = record { pmm = sixteen; entry = λ t i. 0 }

pub sixteen-IsValid : IsValid sixteen
unfolding is_used bit_at
sixteen-IsValid = record {
  bytes = (omega arith, (omega arith, tt));
  covers = omega arith;
  small = omega arith;
  counted = refl;
}

pub bare-IsSpace : IsSpace 12288 bare
unfolding is_used bit_at
bare-IsSpace = (
  only 12288,
  only-IsTree 12288 bare sixteen-IsValid (omega arith) (omega arith) refl refl (λ j h. refl),
)

-- Present, writable and for the user.
pub seven-AreFlags : AreFlags (7 % 4096)
seven-AreFlags = record { low = omega arith; is_present = refl; small = refl }

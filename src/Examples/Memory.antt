-- ===== src/Examples/Memory.antt =====
-- The offsets and pointers of src/shared_memory.cpp and the set-up of the four algorithms at concrete inputs.
use cxl_dis_lock.Common.{ℕ, arith}
use cxl_dis_lock.Memory.{Ptr}
use cxl_dis_lock.Memory.Offsets.{OffsetRound, PtrRound, offsets-Inverse}
use cxl_dis_lock.AnyLock.{mcs}
use cxl_dis_lock.AnyLock.Fits.{Start, any-Start}
use cxl_dis_lock.Examples.Base.{blank, blank-IsOpen}

offsets-Inverse_example : ((i : ℕ) → OffsetRound blank i) × ((p : Ptr) → PtrRound blank p)
offsets-Inverse_example = offsets-Inverse blank-IsOpen (omega arith)

any-Start_example : Start 10 (mcs (record { node_count = 0 })) 4 blank
any-Start_example = any-Start blank-IsOpen (omega arith) 10 4 (mcs (record { node_count = 0 }))

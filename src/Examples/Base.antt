-- ===== src/Examples/Base.antt =====
-- A region of one megabyte, all zero, mapped at address 4096.
use cxl_dis_lock.Common.{true, refl}
use cxl_dis_lock.Types.{software_consistency}
use cxl_dis_lock.Memory.{Shm, mapped, IsOpen}

abbrev pub blank : Shm
blank = record {
  base = mapped 4096;
  size = 1048576;
  consistency = software_consistency;
  valid = true;
  words = λ i. 0;
}

pub blank-IsOpen : IsOpen blank
blank-IsOpen = record { is_valid = refl; address = 4096; is_mapped = refl }

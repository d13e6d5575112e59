-- ===== src/Pid/Tests.antt =====
-- The pool with pids 1 and 2 in use, and the theorems at it.
use ukernel.Prelude.{ℕ, ◌≡◌, refl, true, false, ret, arith, ◌==◌, if◌then◌else◌, all_below}
use ukernel.Bitmap.{Bitmap, bitmap_scan_test, byte_test}
use ukernel.Pid.{allocate_pid}
use ukernel.Pid.Pool.{IsPool, used, Allocated, allocate_pid-Allocated}

abbrev two_used : Bitmap
two_used = record { btmp_bytes_len = 128; bits = λ i. if i == 0 then 3 else 0 }

two_used-IsPool : IsPool two_used
two_used-IsPool = record { bytes = λ i. ground arith; size = refl }

three_free : used two_used 3 ≡ false
unfolding bitmap_scan_test byte_test
three_free = refl

allocate_pid-Allocated_example :
    (p : ℕ) × (b' : Bitmap) × (allocate_pid two_used ≡ ret (p, b')) × Allocated two_used p b'
allocate_pid-Allocated_example =
    allocate_pid-Allocated two_used two_used-IsPool 3 (omega arith) (omega arith) three_free

abbrev all_used : Bitmap
all_used = record { btmp_bytes_len = 128; bits = λ i. 0xff }

all_used-IsPool : IsPool all_used
all_used-IsPool = record { bytes = λ i. omega arith; size = refl }

byte_full : all_below 8 (byte_test 0xff) ≡ true
unfolding all_below byte_test
byte_full = refl

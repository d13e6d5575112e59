-- ===== src/Format/Tests.antt =====
-- partition_format of fs.c at concrete inputs.
use ukernel.Prelude.{◌≡◌, arith, false}
use ukernel.Bitmap.{bitmap_scan_test}
use ukernel.Format.{new_block_bitmap}
use ukernel.Format.Layout.{LaidOut, super_block_of-LaidOut}
use ukernel.Format.FreeBlocks.{new_block_bitmap_lem}

super_block_of-LaidOut_example : LaidOut 2048 20000
super_block_of-LaidOut_example = super_block_of-LaidOut 2048 20000 (omega arith) (omega arith)

-- 19384 blocks: bit 19384 is clear
new_block_bitmap_lem_example :
    bitmap_scan_test (record { btmp_bytes_len = 2560; bits = new_block_bitmap 19384 }) 19384 ≡ false
new_block_bitmap_lem_example = new_block_bitmap_lem 19384 19384 2560 (omega arith) (omega arith)

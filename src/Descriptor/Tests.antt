-- ===== src/Descriptor/Tests.antt =====
-- The descriptors of fs.c at concrete inputs.
use ukernel.Prelude.{◌≡◌, refl, arith, none, some, ◌==◌, if◌then◌else◌, update}
use ukernel.Inode.{Fs}
use ukernel.Inode.Sample.{mounted}
use ukernel.File.{done}
use ukernel.Descriptor.{sys_lseek, seek_pos}
use ukernel.Descriptor.Seek.{sys_lseek_lem}

-- descriptor 3 is place 5, a file at byte 500
abbrev open_file : Fs
open_file = record mounted {
  file_table = λ i. record { fd_pos = 500; fd_flag = 0; fd_inode = if i == 5 then 100 else 0 };
  fd_table = λ i. if i == 3 then some 5 else none;
}

-- 100 bytes back from the end: the offset is the word of -100
sys_lseek_lem_example :
    sys_lseek 3 4294967196 3 open_file
    ≡ done 600 (record open_file {
      file_table = update open_file.file_table 5 (record (open_file.file_table 5) { fd_pos = 600 });
    })
unfolding seek_pos
sys_lseek_lem_example =
    sys_lseek_lem open_file 3 5 4294967196 3 (omega arith) refl (omega arith) (omega arith)
      (omega arith) (omega arith) (omega arith)

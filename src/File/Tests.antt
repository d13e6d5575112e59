-- ===== src/File/Tests.antt =====
-- file.c at concrete inputs.
use ukernel.Prelude.{
  ℕ, true, ◌+◌, ◌≤◌, ◌<◌, ◌≡◌, ◌⊎◌, inl, refl, arith, none, some, [], ◌==◌, if◌then◌else◌,
}
use ukernel.Inode.{Fs, blank, find_open}
use ukernel.Inode.Sample.{two_blocks, mounted}
use ukernel.File.{done, minus_one, get_free_slot_in_global, free_from, file_open}
use ukernel.File.Read.{file_read}
use ukernel.File.Write.{write_blocks}
use ukernel.File.Appending.{Appended, Writable, write_blocks_lem}
use ukernel.File.Content.{content, block_of}
use ukernel.File.Reading.{IsFile, file_read-content}
use ukernel.File.Tables.{FirstFree, get_free_slot_in_global-FirstFree, file_open-denied}

-- place 3 of file_table is a file at byte 500
abbrev one_open : Fs
one_open = record mounted {
  file_table = λ i. record { fd_pos = 500; fd_flag = 0; fd_inode = if i == 3 then 100 else 0 };
  fd_table = λ i. if i == 3 then some 3 else none;
}

two_blocks-IsFile : IsFile blank (two_blocks 3)
unfolding block_of
two_blocks-IsFile = record {
  size = omega arith;
  blocks = λ k below. ground arith;
  indirect = λ big. absurd (omega arith);
}

-- 300 bytes are asked for; 200 are there
file_read-content_example :
    (size : ℕ) × (buf' : ℕ → ℕ) × (fs' : Fs) × (file_read 3 blank 300 one_open
      ≡ done (size, buf') fs')
    × (size ≤ 300)
    × (500 + size ≤ 700)
    × ((size ≡ 300) ⊎ (500 + size ≡ 700))
    × ((fs'.file_table 3).fd_pos ≡ 500 + size)
    × (fs'.disk ≡ blank)
    × ((j : ℕ) → j < size → buf' j ≡ content blank (two_blocks 3) (500 + j))
file_read-content_example =
    file_read-content one_open 3 300 200 300 [] blank refl (λ e. omega arith) (λ e. omega arith)
      two_blocks-IsFile (omega arith) (omega arith)

get_free_slot_in_global-FirstFree_example :
    FirstFree (λ i. (one_open.file_table i).fd_inode == 0) 3 29 (get_free_slot_in_global one_open)
get_free_slot_in_global-FirstFree_example = get_free_slot_in_global-FirstFree one_open

file_open-denied_example :
    (fs' : Fs) × (file_open 3 1 one_open ≡ minus_one fs')
    × ((fs'.file_table 4).fd_inode ≡ 100)
    × ((fs'.inodes 100).i_open_cnts ≡ 3)
    × (fs'.fd_table ≡ one_open.fd_table)
unfolding get_free_slot_in_global free_from find_open
file_open-denied_example =
    file_open-denied one_open 3 1 4 100 refl refl (λ e. omega arith) (inl refl)

pair-Writable : Writable 510 5 (λ k. 100 + k)
pair-Writable = record {
  on_disk = λ k lo hi. omega arith;
  apart = λ j k lo lt hi same. omega arith;
}

-- a file of 510 bytes: 5 are appended, the last 3 of them in a second block
abbrev short_file : Fs
short_file = record mounted { inodes = λ a. record (mounted.inodes a) { i_size = 510 } }

write_blocks_lem_example :
    (fs' : Fs) × (write_blocks 5 3 100 (λ k. 100 + k) (λ j. j) 0 5 true short_file ≡ done 5 fs')
    × Appended short_file.disk 100 510 (λ k. 100 + k) (λ j. j) 0 5 true fs'
write_blocks_lem_example =
    write_blocks_lem 5 short_file 3 100 510 (λ k. 100 + k) (λ j. j) 0 5 true (omega arith) refl
      (omega arith) pair-Writable

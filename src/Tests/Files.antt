-- ===== src/Tests/Files.antt =====
-- The theorems on the file system at a concrete disk.
use sebopesyslab.Base.{
  ℕ, zero, suc, ◌+◌, ◌/◌, ◌%◌, ◌<◌, ◌≤◌, ◌≡◌, refl, sym, ◌∙◌, [], arith, ◌==◌, if◌then◌else◌,
  minus_one,
}
use sebopesyslab.FileSystem.{Fs, Stream, Bytes, word}
use sebopesyslab.FileSystem.Transfer.Reads.{Reads}
use sebopesyslab.FileSystem.Transfer.Whole.{opened}
use sebopesyslab.FileSystem.Run.{done}
use sebopesyslab.FileSystem.Files.{fs_read_kr}
use sebopesyslab.FileSystem.Files.Reading.{IsAt, fs_read_kr-Reads, fs_read_kr_at_end}
use sebopesyslab.FileSystem.Files.Writing.{inode_of, IsFile, Written, fs_write_kr_inside}
use sebopesyslab.FileSystem.Files.RoundTrip.{Restored, fs_write_kr-fs_read_kr}

-- Sector 513 holds an inode whose block d is data block d; the other sectors hold some bytes.
abbrev some_disk : ℕ → Bytes
some_disk s a = if s == 513 then (if a % 4 == 0 then a / 4 else 0) else (s + a) % 256

abbrev some_stream : ℕ → ℕ → Stream
some_stream pos i = record {
  offset = pos;
  inode_offset = 0;
  file_size = 1200;
  dir_offset = 1;
  entry_offset = 3;
  filename = [];
  used = 1;
}

-- The streams stand at `pos` in a file of 1200 bytes in 3 blocks.
abbrev some_fs : ℕ → Fs
some_fs pos = record {
  disk = some_disk;
  mask = λ a. 0;
  inode = λ a. 0;
  dir = λ a. 0;
  buffer = λ a. 0;
  streams = some_stream pos;
  mem = λ a. a % 100;
  fcb = λ i. minus_one;
}

IsAt-pos : (pos : ℕ) → pos ≤ 1200 → IsAt (some_fs pos) 2 pos 1200
IsAt-pos pos h = record {
  bound = omega arith;
  here = refl;
  length = refl;
  before_end = h;
  has_room = omega arith;
}

fs_read_kr-Reads_example :
    Reads 2 500 600 9000 (opened 2 (some_fs 500)) 600 (fs_read_kr 2 9000 600 (some_fs 500))
fs_read_kr-Reads_example =
    fs_read_kr-Reads (some_fs 500) 2 500 1200 9000 600 (IsAt-pos 500 (omega arith)) (omega arith)
      (omega arith)

fs_read_kr_at_end_example : fs_read_kr 2 9000 600 (some_fs 1200) ≡ done minus_one (some_fs 1200)
fs_read_kr_at_end_example =
    fs_read_kr_at_end (some_fs 1200) 2 1200 1200 9000 600 (IsAt-pos 1200 (omega arith))
      (omega arith) refl

numbered : (pos d : ℕ) → d < 3 → word (inode_of 2 (some_fs pos)) d ≡ d
numbered pos zero h = refl
numbered pos (suc zero) h = refl
numbered pos (suc (suc zero)) h = refl
numbered pos (suc (suc (suc d))) h = absurd (omega (arith, h))

three_blocks : IsFile 3 2 (some_fs 500)
three_blocks = record {
  small = omega arith;
  inode_there = omega arith;
  entry_there = omega arith;
  in_sector = omega arith;
  blocks = λ d h. rw (numbered 500 d h) (omega (arith, h));
  different = λ d e h h' same. sym (numbered 500 d h) ∙ same ∙ numbered 500 e h';
}

fs_write_kr_inside_example : Written 3 2 500 600 9000 (some_fs 500)
fs_write_kr_inside_example =
    fs_write_kr_inside 3 2 500 1200 (some_fs 500) (IsAt-pos 500 (omega arith)) three_blocks 9000 600
      (omega arith) (omega arith) (omega arith)

fs_write_kr-fs_read_kr_example : Restored 9000 600 7000 (some_fs 500) 2 500
fs_write_kr-fs_read_kr_example =
    fs_write_kr-fs_read_kr 3 2 500 1200 (some_fs 500) (IsAt-pos 500 (omega arith)) three_blocks 9000
      600 7000 (omega arith) (omega arith) (omega arith)

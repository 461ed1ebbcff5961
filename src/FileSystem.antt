-- ===== src/FileSystem.antt =====
-- The state of kernel/src/fs/file.c: the disk of inc/disk.h, the buffers for one inode, one
-- directory sector, one data block and the bitmap, and the table of file streams of
-- kernel/include/file.h. A buffer is a function from an index to a byte; behind its end come the
-- bytes that lie behind it in memory.
pub mod Run
pub mod Copying
pub mod Sectors
pub mod Alloc
pub mod Transfer
pub mod Streams
pub mod Files
pub mod Ports
use sebopesyslab.Base.{
  ℕ, ◌+◌, ◌-◌, ◌*◌, ◌/◌, ◌%◌, ◌^◌, ◌==◌, ltb, leb, ◌&&◌, if◌then◌else◌, Bool, List, add32, u32,
}

abbrev pub block_size : ℕ
block_size = 512

abbrev pub len_filename : ℕ
len_filename = 24

-- BLOCK_SIZE / sizeof(struct dirent)
abbrev pub nr_entries : ℕ
nr_entries = 16

-- BLOCK_SIZE / sizeof(uint32_t)
abbrev pub nr_blocks : ℕ
nr_blocks = 128

abbrev pub nr_file_stream : ℕ
nr_file_stream = 256

abbrev pub sc_bitmap : ℕ
sc_bitmap = 256

abbrev pub sc_dir : ℕ
sc_dir = 256

abbrev pub sc_inode : ℕ
sc_inode = 256

-- 512/4*SC_INODE
abbrev pub sc_data : ℕ
sc_data = 128 * sc_inode

abbrev pub loc_bitmap : ℕ
loc_bitmap = 1

abbrev pub loc_dir : ℕ → ℕ
loc_dir x = add32 257 x

abbrev pub loc_inode : ℕ → ℕ
loc_inode x = add32 513 x

abbrev pub loc_data : ℕ → ℕ
loc_data x = add32 769 x

-- The sector that `readsect` and `writesect` select: the low 28 bits of the offset, in three bytes
-- and the low half of a fourth, whose high half is set to 0xE by the OR with 0xE0.
abbrev pub lba : ℕ → ℕ
lba offset =
    offset % 2 ^ 8
    + (offset / 2 ^ 8) % 2 ^ 8 * 2 ^ 8
    + (offset / 2 ^ 16) % 2 ^ 8 * 2 ^ 16
    + (offset / 2 ^ 24) % 2 ^ 4 * 2 ^ 24

abbrev pub Bytes : Type 0
Bytes = ℕ → ℕ

-- The bytes at `p` up to `p + n` come from `from`, which starts at index `i`.
abbrev pub copy : (n : ℕ) → (to : Bytes) (p : ℕ) → (from : Bytes) (i : ℕ) → Bytes
copy n to p from i a = if leb p a && ltb a (p + n) then from (i + (a - p)) else to a

-- `((uint32_t*) b)[j]`, little-endian, and an assignment to it
abbrev pub word : Bytes → ℕ → ℕ
word b j = b (4 * j) + b (4 * j + 1) * 2 ^ 8 + b (4 * j + 2) * 2 ^ 16 + b (4 * j + 3) * 2 ^ 24

abbrev pub byte_of : ℕ → ℕ → ℕ
byte_of w k =
    if k == 0
    then w % 2 ^ 8
    else if k == 1
    then w / 2 ^ 8 % 2 ^ 8
    else if k == 2
    then w / 2 ^ 16 % 2 ^ 8
    else w / 2 ^ 24 % 2 ^ 8

abbrev pub put_word : Bytes → ℕ → ℕ → Bytes
put_word b j w i = if i / 4 == j then byte_of w (i % 4) else b i

-- FILE_STREAM. Its own copy of the inode is never used.
pub record Stream : Type 0 where
  pub offset : ℕ
  pub inode_offset : ℕ
  pub file_size : ℕ
  pub dir_offset : ℕ
  pub entry_offset : ℕ
  pub filename : List ℕ
  pub used : ℕ

-- `disk` gives the bytes of each sector, `mem` those of the memory that callers read to and write
-- from, and `fcb` the `fd_kr` of each FCB of the current process.
pub record Fs : Type 0 where
  pub disk : ℕ → Bytes
  pub mask : Bytes
  pub inode : Bytes
  pub dir : Bytes
  pub buffer : Bytes
  pub streams : ℕ → Stream
  pub mem : Bytes
  pub fcb : ℕ → ℕ

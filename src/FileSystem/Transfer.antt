-- ===== src/FileSystem/Transfer.antt =====
-- fs_read_base_kr and fs_write_base_kr of kernel/src/fs/file.c. `len` is the bit pattern of an
-- int32_t. A loop stops at a block index past the inode, so that one round more than an inode has
-- blocks is enough.
pub mod Content
pub mod Reads
pub mod Writes
pub mod Rewriting
pub mod Whole
pub mod Replaced
use sebopesyslab.Base.{
  ℕ, zero, suc, ◌+◌, ◌-◌, ◌/◌, ◌%◌, ◌^◌, Bool, not, ◌&&◌, ltb, leb, if◌then◌else◌, add32, sub32,
  is_negative, ◌>>>◌,
}
use sebopesyslab.FileSystem.{Fs, Stream, Bytes, copy, word, block_size, nr_blocks}
use sebopesyslab.FileSystem.Run.{
  Op, crash, out_of_fuel, pure, get, modify, ◌>>=◌, ◌>>◌, load_stream, store_stream,
}
use sebopesyslab.FileSystem.Sectors.{read_inode, read_data, save_data}

-- `inode.data_block_offsets[f->offset >> 9]`
abbrev pub current_block : ℕ → Op ℕ
current_block fd = do
  f ← load_stream fd
  k ← get
  if leb nr_blocks (f.offset >>> 9) then (λ _. crash) else pure (word k.inode (f.offset >>> 9))

abbrev pub advance : ℕ → ℕ → Op (Unit {0})
advance fd n = store_stream fd (λ f. record f { offset = add32 f.offset n })

-- `memcpy2(buf, buffer+from, n)` and `memcpy2(buffer+from, buf, n)`
abbrev pub copy_out : (buf from n : ℕ) → Op (Unit {0})
copy_out buf from n =
    if ltb block_size (from + n)
    then (λ _. crash)
    else modify (λ k. record k { mem = copy n k.mem buf k.buffer from })

abbrev pub copy_in : (from buf n : ℕ) → Op (Unit {0})
copy_in from buf n =
    if ltb block_size (from + n)
    then (λ _. crash)
    else modify (λ k. record k { buffer = copy n k.buffer from k.mem buf })

-- The current block is read, and `n` bytes of it are copied out.
pub read_part : (fd buf from n : ℕ) → Op (Unit {0})
read_part fd buf from n = do b ← current_block fd; read_data b; copy_out buf from n; advance fd n

-- `len >= BLOCK_SIZE`, between ints
abbrev pub block_left : ℕ → Bool
block_left len = not (is_negative len) && leb block_size len

pub read_loop : ℕ → (fd buf offset len : ℕ) → Op (ℕ × ℕ)
read_loop zero fd buf offset len = λ _. out_of_fuel
read_loop (suc n) fd buf offset len =
    if block_left len
    then (do
      read_part fd (buf + offset) 0 block_size
      read_loop n fd buf (add32 offset block_size) (sub32 len block_size))
    else pure (offset, len)

abbrev pub max_rounds : ℕ
max_rounds = nr_blocks + 1

pub read_base : (fd buf len : ℕ) → Op (Unit {0})
read_base fd buf len = do
  f ← load_stream fd
  read_inode f.inode_offset
  let r = f.offset % block_size
  if ltb block_size (add32 r len)
      then (do
        read_part fd buf r (block_size - r)
        rest ← read_loop max_rounds fd buf (block_size - r) (sub32 len (block_size - r))
        read_part fd (buf + rest.0) 0 rest.1)
      else read_part fd buf r len

-- The current block is read, `n` bytes of it are replaced, and it is written back.
pub write_part : (fd buf from n : ℕ) → Op (Unit {0})
write_part fd buf from n = do
  b ← current_block fd
  read_data b
  copy_in from buf n
  save_data b
  advance fd n

-- The current block is written in full.
pub write_block : (fd buf : ℕ) → Op (Unit {0})
write_block fd buf = do
  b ← current_block fd
  copy_in 0 buf block_size
  save_data b
  advance fd block_size

pub write_loop : ℕ → (fd buf offset len : ℕ) → Op (ℕ × ℕ)
write_loop zero fd buf offset len = λ _. out_of_fuel
write_loop (suc n) fd buf offset len =
    if block_left len
    then (do
      write_block fd (buf + offset)
      write_loop n fd buf (add32 offset block_size) (sub32 len block_size))
    else pure (offset, len)

pub write_base : (fd buf len : ℕ) → Op (Unit {0})
write_base fd buf len = do
  f ← load_stream fd
  read_inode f.inode_offset
  let r = f.offset % block_size
  if ltb block_size (add32 r len)
      then (do
        write_part fd buf r (block_size - r)
        rest ← write_loop max_rounds fd buf (block_size - r) (sub32 len (block_size - r))
        write_part fd (buf + rest.0) 0 rest.1)
      else write_part fd buf r len

-- ===== src/FileSystem/Files.antt =====
-- fs_read_kr and fs_write_kr of kernel/src/fs/file.c, and the functions `_md` above them.
pub mod Reading
pub mod Writing
pub mod RoundTrip
use sebopesyslab.Base.{
  ℕ, zero, suc, ◌+◌, ◌-◌, ◌%◌, ◌^◌, Bool, not, ◌&&◌, ◌||◌, ◌==◌, ltb, leb, if◌then◌else◌, List,
  add32, sub32, is_negative, minus_one, ◌>>>◌,
}
use sebopesyslab.FileSystem.{Fs, Stream, Bytes, put_word, block_size, nr_blocks, nr_entries}
use sebopesyslab.FileSystem.Run.{
  Op, crash, out_of_fuel, pure, get, modify, ◌>>=◌, ◌>>◌, load_stream, store_stream,
}
use sebopesyslab.FileSystem.Sectors.{read_inode, save_inode, read_dir, save_dir}
use sebopesyslab.FileSystem.Alloc.{data_alloc}
use sebopesyslab.FileSystem.Streams.{
  entry_file_size, fs_open_kr, fs_create_kr, fs_lseek_kr, fs_close_kr,
}
use sebopesyslab.FileSystem.Transfer.{read_base, write_base, max_rounds}

-- `len`, cut at the end of the file
abbrev pub cut : (offset len file_size : ℕ) → ℕ
cut offset len file_size = if leb file_size (add32 offset len) then sub32 file_size offset else len

pub fs_read_kr : (fd buf len : ℕ) → Op ℕ
fs_read_kr fd buf len = do
  f ← load_stream fd
  let n = cut f.offset len f.file_size
  if n == 0 then pure minus_one else do read_base fd buf n; pure n

-- `inode.data_block_offsets[d] = dataAlloc()`
pub alloc_block : ℕ → Op (Unit {0})
alloc_block d = do
  b ← data_alloc
  if leb nr_blocks d then (λ _. crash) else modify (λ k. record k { inode = put_word k.inode d b })

-- `while(D1<=D2)`
pub grow_loop : ℕ → (d1 d2 : ℕ) → Op (Unit {0})
grow_loop zero d1 d2 = λ _. out_of_fuel
grow_loop (suc n) d1 d2 = if ltb d2 d1 then pure tt else do alloc_block d1; grow_loop n (d1 + 1) d2

-- The first block of an empty file.
pub start_file : (fd len : ℕ) → Op (Unit {0})
start_file fd len = do
  f ← load_stream fd
  if f.file_size == 0
      then (do
        read_inode f.inode_offset
        alloc_block 0
        save_inode f.inode_offset
        store_stream fd (λ f. record f {
          file_size = if not (is_negative len) && ltb block_size len then block_size else len;
        }))
      else pure tt

-- Room for a file that grows.
pub grow_file : (fd len : ℕ) → Op (Unit {0})
grow_file fd len = do
  f ← load_stream fd
  if ltb f.file_size (add32 f.offset len)
      then (do
        read_inode f.inode_offset
        grow_loop max_rounds ((f.offset >>> 9) + 1) (add32 f.offset len >>> 9)
        save_inode f.inode_offset
        store_stream fd (λ g. record g { file_size = add32 g.offset len }))
      else pure tt

-- The size goes to the directory. An entry behind the array is outside `dir`.
pub save_size : ℕ → Op (Unit {0})
save_size fd = do
  f ← load_stream fd
  read_dir f.dir_offset
  (if ltb f.entry_offset nr_entries
      then modify
          (λ k. record k { dir = put_word k.dir (entry_file_size f.entry_offset) f.file_size })
      else λ _. crash)
  save_dir f.dir_offset

pub fs_write_kr : (fd buf len : ℕ) → Op ℕ
fs_write_kr fd buf len = do
  start_file fd len
  grow_file fd len
  save_size fd
  write_base fd buf len
  pure len

pub fs_open_md : List ℕ → (flags : ℕ) → Op ℕ
fs_open_md pathname flags = do
  fd ← fs_open_kr pathname
  fd' ←
      (if fd == minus_one && (not (is_negative flags) && leb 1 flags)
        then fs_create_kr pathname
        else pure fd)
  (if flags == 2 then store_stream fd' (λ f. record f { file_size = 0 }) else pure tt)
  pure fd'

pub fs_read_md : (fd buf len : ℕ) → Op ℕ
fs_read_md fd buf len = fs_read_kr fd buf len

pub fs_write_md : (fd buf len : ℕ) → Op ℕ
fs_write_md fd buf len = fs_write_kr fd buf len

pub fs_lseek_md : (fd offset whence : ℕ) → Op ℕ
fs_lseek_md fd offset whence = do
  f ← load_stream fd
  let index =
      if whence == 0
      then offset
      else if whence == 1
      then add32 f.offset offset
      else if whence == 2
      then add32 f.file_size offset
      else 0
  fs_lseek_kr fd index
  pure index

pub fs_close_md : ℕ → Op ℕ
fs_close_md fd = fs_close_kr fd

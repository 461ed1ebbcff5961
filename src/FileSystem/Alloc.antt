-- ===== src/FileSystem/Alloc.antt =====
-- INodeAlloc and dataAlloc of kernel/src/fs/file.c.
pub mod Bits
pub mod Bitmap
pub mod Taken
pub mod Layout
use sebopesyslab.Base.{
  ℕ, ◌+◌, ◌-◌, ◌*◌, ◌/◌, ◌%◌, ◌^◌, Bool, ◌==◌, if◌then◌else◌, minus_one, bit_and, bit_or, u8, ◌<<<◌,
  ◌>>>◌,
}
use sebopesyslab.Base.Search.{first_from}
use sebopesyslab.Kernel.{update}
use sebopesyslab.FileSystem.{Fs, Bytes, sc_inode, sc_data, loc_inode, loc_data}
use sebopesyslab.FileSystem.Run.{Op, pure, get, modify, ◌>>=◌, ◌>>◌}
use sebopesyslab.FileSystem.Sectors.{read_bitmap, save_bitmap}

-- `1<<(sec&0x7)`
abbrev pub bit_in_byte : ℕ → ℕ
bit_in_byte sec = 1 <<< (sec % 8)

-- `(bitmap.mask[secN]&secR) == 0`
abbrev pub is_free : Bytes → ℕ → Bool
is_free mask sec = bit_and (mask (sec >>> 3)) (bit_in_byte sec) == 0

abbrev pub take_bit : ℕ → Bytes → Bytes
take_bit sec mask = update mask (sec >>> 3) (bit_or (mask (sec >>> 3)) (bit_in_byte sec))

-- The loop over `i < count` of INodeAlloc and dataAlloc, which differ in `loc` and `count`.
pub alloc : (count : ℕ) (loc : ℕ → ℕ) → Op ℕ
alloc count loc = do
  read_bitmap
  k ← get
  let i = first_from count 0 (λ i. is_free k.mask (loc i))
  if i == count
      then pure minus_one
      else do modify (λ k. record k { mask = take_bit (loc i) k.mask }); save_bitmap; pure i

pub inode_alloc : Op ℕ
inode_alloc = alloc sc_inode loc_inode

pub data_alloc : Op ℕ
data_alloc = alloc sc_data loc_data

-- ===== src/FileSystem/Sectors.antt =====
-- The transfers of one sector of kernel/src/fs/file.c and inc/disk.h.
use sebopesyslab.Base.{ℕ, zero, suc, ◌+◌, ◌<<<◌}
use sebopesyslab.Kernel.{update}
use sebopesyslab.FileSystem.{
  Fs, Bytes, copy, lba, block_size, sc_bitmap, loc_bitmap, loc_dir, loc_inode, loc_data,
}
use sebopesyslab.FileSystem.Run.{Op, pure, modify, ◌>>◌}

-- The 512 bytes at `dst` become those of the sector.
abbrev pub readsect : (to : Bytes) (dst offset : ℕ) → Fs → Bytes
readsect to dst offset k = copy block_size to dst (k.disk (lba offset)) 0

-- The sector becomes the 512 bytes at `src`.
abbrev pub writesect : (from : Bytes) (src offset : ℕ) → Fs → Fs
writesect from src offset k = record k {
  disk = update k.disk (lba offset) (copy block_size (k.disk (lba offset)) 0 from src);
}

-- The chunk `count` of the bitmap.
abbrev pub bitmap_sector : ℕ → ℕ
bitmap_sector count = loc_bitmap + (count <<< 9)

unfoldable pub read_chunks : ℕ → ℕ → Op (Unit {0})
read_chunks zero count = pure tt
read_chunks (suc n) count = do
  modify (λ k. record k { mask = readsect k.mask (count <<< 9) (bitmap_sector count) k })
  read_chunks n (count + 1)

unfoldable pub read_bitmap : Op (Unit {0})
read_bitmap = read_chunks sc_bitmap 0

unfoldable pub save_chunks : ℕ → ℕ → Op (Unit {0})
save_chunks zero count = pure tt
save_chunks (suc n) count = do
  modify (λ k. writesect k.mask (count <<< 9) (bitmap_sector count) k)
  save_chunks n (count + 1)

unfoldable pub save_bitmap : Op (Unit {0})
save_bitmap = save_chunks sc_bitmap 0

abbrev pub read_dir : ℕ → Op (Unit {0})
read_dir offset = modify (λ k. record k { dir = readsect k.dir 0 (loc_dir offset) k })

abbrev pub save_dir : ℕ → Op (Unit {0})
save_dir offset = modify (λ k. writesect k.dir 0 (loc_dir offset) k)

abbrev pub read_inode : ℕ → Op (Unit {0})
read_inode offset = modify (λ k. record k { inode = readsect k.inode 0 (loc_inode offset) k })

abbrev pub save_inode : ℕ → Op (Unit {0})
save_inode offset = modify (λ k. writesect k.inode 0 (loc_inode offset) k)

abbrev pub read_data : ℕ → Op (Unit {0})
read_data offset = modify (λ k. record k { buffer = readsect k.buffer 0 (loc_data offset) k })

abbrev pub save_data : ℕ → Op (Unit {0})
save_data offset = modify (λ k. writesect k.buffer 0 (loc_data offset) k)

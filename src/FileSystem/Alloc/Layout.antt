-- ===== src/FileSystem/Alloc/Layout.antt =====
-- dataAlloc against the layout of the disk in kernel/include/file.h, which fmt/formatter.c writes: the
-- bitmap is in the 256 sectors behind that of the boot loader.
use sebopesyslab.Base.{
  ℕ, ◌+◌, ◌-◌, ◌*◌, ◌/◌, ◌%◌, ◌<◌, ◌≤◌, ◌≡◌, ◌≢◌, ◌⊎◌, Bool, true, false, ◌==◌, if◌then◌else◌,
  minus_one,
}
use sebopesyslab.FileSystem.{Fs, Bytes, sc_data, loc_data}
use sebopesyslab.FileSystem.Run.{Result, done}
use sebopesyslab.FileSystem.Alloc.{is_free}
use sebopesyslab.FileSystem.Alloc.Taken.{mapped}

-- Sector `sec` is free by the bitmap in the sectors 1 to 256.
abbrev pub is_free_by_layout : (disk : ℕ → Bytes) → ℕ → Bool
is_free_by_layout disk sec = is_free (λ a. disk (1 + a / 512) (a % 512)) sec

-- The sector in which the code looks for the bit of sector `sec`
abbrev pub sector_read : ℕ → ℕ
sector_read sec = 1 + 512 * (sec / 4096)

-- The data blocks whose bits are in the first sector of the bitmap
abbrev pub nr_near : ℕ
nr_near = 4096 - 769

abbrev SameOutside : (s : ℕ) (k out : Fs) → Type 0
SameOutside s k out = (t a : ℕ) → a < 512 → t ≢ s → out.disk t a ≡ k.disk t a

-- One of the near blocks is free, and the first of them is taken.
pub record Near (k out : Fs) (i : ℕ) : Type 0 where
  pub in_range : i < nr_near
  pub was_free : is_free_by_layout k.disk (loc_data i) ≡ true
  pub first_free : (j : ℕ) → j < i → is_free_by_layout k.disk (loc_data j) ≡ false
  pub bits :
      (sec : ℕ)
      → sec < mapped
      → is_free_by_layout out.disk sec
        ≡ (if sec == loc_data i then false else is_free_by_layout k.disk sec)
  pub disk_kept : SameOutside 1 k out
  pub inode_kept : out.inode ≡ k.inode
  pub streams_kept : out.streams ≡ k.streams

-- No near block is free, and another is returned: its bit in a sector that holds no bitmap is set.
pub record Far (k out : Fs) (i : ℕ) : Type 0 where
  pub none_near : (j : ℕ) → j < nr_near → is_free_by_layout k.disk (loc_data j) ≡ false
  pub beyond : nr_near ≤ i
  pub in_range : i < sc_data
  pub not_bitmap : 513 ≤ sector_read (loc_data i)
  pub was_clear : is_free (k.disk (sector_read (loc_data i))) (loc_data i % 4096) ≡ true
  pub now_set : is_free (out.disk (sector_read (loc_data i))) (loc_data i % 4096) ≡ false
  pub bits :
      (sec : ℕ) → sec < mapped → is_free_by_layout out.disk sec ≡ is_free_by_layout k.disk sec
  pub disk_kept : SameOutside (sector_read (loc_data i)) k out
  pub inode_kept : out.inode ≡ k.inode
  pub streams_kept : out.streams ≡ k.streams

pub record None (k out : Fs) : Type 0 where
  pub none_near : (j : ℕ) → j < nr_near → is_free_by_layout k.disk (loc_data j) ≡ false
  pub disk_kept : out.disk ≡ k.disk
  pub inode_kept : out.inode ≡ k.inode
  pub streams_kept : out.streams ≡ k.streams

pub record Allocates (k : Fs) (r : Result ℕ) : Type 0 where
  pub out : Fs
  pub index : ℕ
  pub ends : r ≡ done index out
  pub result : ((index ≡ minus_one) × None k out) ⊎ (Near k out index ⊎ Far k out index)

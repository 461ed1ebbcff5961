-- ===== src/FileSystem/Transfer/Content.antt =====
-- The bytes of a file, as one sequence: byte `pos` stands in the block that word `pos / 512` of the
-- inode names.
use sebopesyslab.Base.{ℕ, ◌+◌, ◌%◌, ◌<◌, ◌≡◌, refl, ap, ◌∙◌, arith, ◌>>>◌}
use sebopesyslab.FileSystem.{Bytes, word, lba, loc_data, block_size}

-- The sector of block `d` of the file.
abbrev pub block_sector : Bytes → ℕ → ℕ
block_sector inode d = lba (loc_data (word inode d))

unfoldable pub content : (disk : ℕ → Bytes) (inode : Bytes) → Bytes
content disk inode pos = disk (block_sector inode (pos >>> 9)) (pos % block_size)

-- A file has room for 64 KB.
abbrev pub max_size : ℕ
max_size = 0x1_0000

-- The first `n` blocks of the file are different sectors.
abbrev pub Apart : Bytes → ℕ → Type 0
Apart inode n = (d e : ℕ) → d < n → e < n → block_sector inode d ≡ block_sector inode e → d ≡ e

-- Inside one block.
pub content_lem :
    (disk : ℕ → Bytes) (inode : Bytes) (pos from x : ℕ)
    → from ≡ pos % block_size
    → from + x < block_size
    → content disk inode (pos + x) ≡ disk (block_sector inode (pos >>> 9)) (from + x)
unfolding content
content_lem disk inode pos from x at h =
    ap (λ d. disk (block_sector inode d) ((pos + x) % block_size)) {x = (pos + x) >>> 9}
      (omega (arith, at, h))
    ∙ ap (disk (block_sector inode (pos >>> 9))) (omega (arith, at, h))

pub content_at :
    (disk : ℕ → Bytes) (inode : Bytes) (p : ℕ)
    → content disk inode p ≡ disk (block_sector inode (p >>> 9)) (p % block_size)
unfolding content
content_at disk inode p = refl

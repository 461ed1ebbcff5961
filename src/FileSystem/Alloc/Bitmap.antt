-- ===== src/FileSystem/Alloc/Bitmap.antt =====
-- readBitmap and saveBitmap of kernel/src/fs/file.c: where the bytes of the bitmap stand on the disk.
use sebopesyslab.Base.{
  ℕ, zero, suc, ◌+◌, ◌*◌, ◌%◌, ◌<◌, ◌≤◌, ◌≡◌, ◌≢◌, refl, ap, ◌∙◌, arith, ◌==◌, if◌then◌else◌, ◌<<<◌,
  ◌>>>◌, Bool-cases, inl, inr, eq→==, ne→==_false, ==→eq,
}
use sebopesyslab.Kernel.{update}
use sebopesyslab.FileSystem.{Fs, Bytes, copy, lba, block_size, sc_bitmap}
use sebopesyslab.FileSystem.Copying.{copy_inside, copy_before, stretch-cases}
use sebopesyslab.FileSystem.Run.{done}
use sebopesyslab.FileSystem.Sectors.{
  bitmap_sector, read_chunks, save_chunks, read_bitmap, save_bitmap,
}

-- The bitmap as the disk has it: 512 bytes in each of the sectors 1, 513, 1025 and so on.
abbrev pub disk_mask : (disk : ℕ → Bytes) → Bytes
disk_mask disk a = disk (lba (bitmap_sector (a >>> 9))) (a % block_size)

abbrev loaded : ℕ → ℕ → (disk : ℕ → Bytes) → Bytes → Bytes
loaded zero c disk mask = mask
loaded (suc n) c disk mask =
    loaded n (c + 1) disk (copy block_size mask (c <<< 9) (disk (lba (bitmap_sector c))) 0)

abbrev saved : ℕ → ℕ → Bytes → (disk : ℕ → Bytes) → (ℕ → Bytes)
saved zero c mask disk = disk
saved (suc n) c mask disk =
    let s = lba (bitmap_sector c) in
    saved n (c + 1) mask (update disk s (copy block_size (disk s) 0 mask (c <<< 9)))

abbrev pub with_mask : Bytes → Fs → Fs
with_mask mask k = record k { mask = mask }

abbrev pub with_disk : (ℕ → Bytes) → Fs → Fs
with_disk disk k = record k { disk = disk }

read_step :
    (n c : ℕ) (k : Fs)
    → read_chunks (suc n) c k
      ≡ read_chunks n
          (c + 1)
          (with_mask (copy block_size k.mask (c <<< 9) (k.disk (lba (bitmap_sector c))) 0) k)
unfolding read_chunks
read_step n c k = refl

read_chunks-loaded :
    (n c : ℕ) (k : Fs) → read_chunks n c k ≡ done tt (with_mask (loaded n c k.disk k.mask) k)
read_chunks-loaded zero c k = unfold read_chunks in refl
read_chunks-loaded (suc n) c k =
    read_step n c k
    ∙ read_chunks-loaded n (c + 1)
        (with_mask (copy block_size k.mask (c <<< 9) (k.disk (lba (bitmap_sector c))) 0) k)

save_step :
    (n c : ℕ) (k : Fs)
    → save_chunks (suc n) c k
      ≡ save_chunks n (c + 1) (
          with_disk
            (update k.disk
              (lba (bitmap_sector c))
              (copy block_size (k.disk (lba (bitmap_sector c))) 0 k.mask (c <<< 9)))
            k)
unfolding save_chunks
save_step n c k = refl

save_chunks-saved :
    (n c : ℕ) (k : Fs) → save_chunks n c k ≡ done tt (with_disk (saved n c k.mask k.disk) k)
save_chunks-saved zero c k = unfold save_chunks in refl
save_chunks-saved (suc n) c k =
    save_step n c k
    ∙ save_chunks-saved n (c + 1) (
        with_disk
          (update k.disk (lba (bitmap_sector c))
            (copy block_size (k.disk (lba (bitmap_sector c))) 0 k.mask (c <<< 9)))
          k)

-- Bytes before the chunks stay.
loaded_before :
    (n c : ℕ) (disk : ℕ → Bytes) (mask : Bytes) (a : ℕ)
    → a < c * block_size
    → loaded n c disk mask a ≡ mask a
loaded_before zero c disk mask a h = refl
loaded_before (suc n) c disk mask a h =
    loaded_before n (c + 1) disk (copy block_size mask (c <<< 9) (disk (lba (bitmap_sector c))) 0) a
      (omega (arith, h))
    ∙ copy_before block_size mask (c <<< 9) (disk (lba (bitmap_sector c))) 0 a h

loaded_inside :
    (n c : ℕ) (disk : ℕ → Bytes) (mask : Bytes) (a : ℕ)
    → c * block_size ≤ a
    → a < (c + n) * block_size
    → loaded n c disk mask a ≡ disk_mask disk a
loaded_inside zero c disk mask a h h' = absurd (omega (arith, h, h'))
loaded_inside (suc n) c disk mask a h h' = elim (stretch-cases (c <<< 9) block_size a) [
  | inl before ↦ absurd (omega (arith, h, before))
  | inr (inl (l, u)) ↦
      loaded_before n (c + 1) disk (copy block_size mask (c <<< 9) (disk (lba (bitmap_sector c))) 0)
        a (omega (arith, u))
      ∙ copy_inside block_size mask (c <<< 9) (disk (lba (bitmap_sector c))) 0 a l u
      ∙ ap (disk (lba (bitmap_sector c))) (omega (arith, l, u))
      ∙ ap (λ z. disk (lba (bitmap_sector z)) (a % block_size)) {x = c} (omega (arith, l, u))
  | inr (inr behind) ↦
      loaded_inside n (c + 1) disk (copy block_size mask (c <<< 9) (disk (lba (bitmap_sector c))) 0)
        a (omega (arith, behind)) (omega (arith, h'))
]

-- Sectors that no chunk from `c` on goes to stay.
saved_other :
    (n c : ℕ) (mask : Bytes) (disk : ℕ → Bytes) (s : ℕ)
    → ((x : ℕ) → c ≤ x → x < c + n → s ≢ lba (bitmap_sector x))
    → saved n c mask disk s ≡ disk s
saved_other zero c mask disk s away = refl
saved_other (suc n) c mask disk s away =
    saved_other n (c + 1) mask
      (update disk (lba (bitmap_sector c))
        (copy block_size (disk (lba (bitmap_sector c))) 0 mask (c <<< 9)))
      s (λ x l u. away x (omega (arith, l)) (omega (arith, u)))
    ∙ (rw (ne→==_false s (lba (bitmap_sector c)) (away c (omega arith) (omega arith))))

saved_inside :
    (n c : ℕ) (mask : Bytes) (disk : ℕ → Bytes) (x b : ℕ)
    → c ≤ x
    → x < c + n
    → c + n ≤ sc_bitmap
    → b < block_size
    → saved n c mask disk (lba (bitmap_sector x)) b ≡ mask ((x <<< 9) + b)
saved_inside zero c mask disk x b l u small h = absurd (omega (arith, l, u))
saved_inside (suc n) c mask disk x b l u small h = elim (Bool-cases (x == c)) [
  | inl e ↦
      let e' = ==→eq x c e in
      let s = lba (bitmap_sector c) in
      ap
        (λ z.
          saved n (c + 1) mask (update disk s (copy block_size (disk s) 0 mask (c <<< 9)))
            (lba (bitmap_sector z)) b)
        e'
      ∙ ap (λ f. f b)
          (saved_other n (c + 1) mask (update disk s (copy block_size (disk s) 0 mask (c <<< 9))) s
            (λ y l' u'. omega (arith, l', u', small)))
      ∙ ap (λ z. (if z then copy block_size (disk s) 0 mask (c <<< 9) else disk s) b)
          (eq→== s s refl)
      ∙ copy_inside block_size (disk s) 0 mask (c <<< 9) b (omega arith) (omega (arith, h))
      ∙ ap mask (omega (arith, e'))
  | inr o ↦
      saved_inside n (c + 1) mask
        (update disk (lba (bitmap_sector c))
          (copy block_size (disk (lba (bitmap_sector c))) 0 mask (c <<< 9)))
        x b (ground (arith, l, o)) (omega (arith, u)) (omega (arith, small)) h
]

-- The mask that readBitmap leaves, and the disk that saveBitmap leaves.
pub loaded_mask : (disk : ℕ → Bytes) → Bytes → Bytes
loaded_mask disk mask = loaded sc_bitmap 0 disk mask

pub saved_disk : Bytes → (disk : ℕ → Bytes) → (ℕ → Bytes)
saved_disk mask disk = saved sc_bitmap 0 mask disk

pub read_bitmap_lem : (k : Fs) → read_bitmap k ≡ done tt (with_mask (loaded_mask k.disk k.mask) k)
unfolding read_bitmap loaded_mask
read_bitmap_lem k = read_chunks-loaded sc_bitmap 0 k

pub save_bitmap_lem : (k : Fs) → save_bitmap k ≡ done tt (with_disk (saved_disk k.mask k.disk) k)
unfolding save_bitmap saved_disk
save_bitmap_lem k = save_chunks-saved sc_bitmap 0 k

pub loaded_mask_lem :
    (disk : ℕ → Bytes) (mask : Bytes) (a : ℕ)
    → a < sc_bitmap * block_size
    → loaded_mask disk mask a ≡ disk_mask disk a
unfolding loaded_mask
loaded_mask_lem disk mask a h = loaded_inside sc_bitmap 0 disk mask a (omega arith) h

pub saved_disk_other :
    (mask : Bytes) (disk : ℕ → Bytes) (s : ℕ)
    → ((x : ℕ) → x < sc_bitmap → s ≢ lba (bitmap_sector x))
    → saved_disk mask disk s ≡ disk s
unfolding saved_disk
saved_disk_other mask disk s away = saved_other sc_bitmap 0 mask disk s (λ x _ u. away x u)

-- The disk holds the mask that was saved.
pub disk_mask-saved_disk :
    (mask : Bytes) (disk : ℕ → Bytes) (a : ℕ)
    → a < sc_bitmap * block_size
    → disk_mask (saved_disk mask disk) a ≡ mask a
unfolding saved_disk
disk_mask-saved_disk mask disk a h =
    saved_inside sc_bitmap 0 mask disk (a >>> 9) (a % block_size) (omega arith) (omega (arith, h))
      (omega arith) (omega arith)
    ∙ ap mask (omega arith)

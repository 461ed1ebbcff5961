-- ===== src/FileSystem/Alloc/Taken.antt =====
-- What INodeAlloc and dataAlloc do: they take the first free sector and no other.
use mathlib.Core.Path.{subst}
use sebopesyslab.Base.{
  ℕ, ◌*◌, ◌<◌, ◌≡◌, ◌≢◌, ◌⊎◌, refl, sym, ap, ◌∙◌, Bool, true, false, arith, ◌==◌, if◌then◌else◌,
  ◌>>>◌, Bool-cases, inl, inr, eq→==, ne→==_false, ==→eq, minus_one, bit_and,
}
use sebopesyslab.Base.Search.{first_from, IsFirst, first_from-IsFirst}
use sebopesyslab.FileSystem.{
  Fs, Bytes, lba, block_size, sc_bitmap, sc_data, sc_inode, loc_data, loc_inode,
}
use sebopesyslab.FileSystem.Run.{Result, done}
use sebopesyslab.FileSystem.Sectors.{bitmap_sector}
use sebopesyslab.FileSystem.Alloc.{alloc, data_alloc, inode_alloc, is_free, take_bit, bit_in_byte}
use sebopesyslab.FileSystem.Alloc.Bits.{is_free-take_bit}
use sebopesyslab.FileSystem.Alloc.Bitmap.{
  disk_mask, with_mask, with_disk, loaded_mask, saved_disk, loaded_mask_lem, saved_disk_other,
  read_bitmap_lem, save_bitmap_lem, disk_mask-saved_disk,
}

-- The sectors that the bitmap has bits for.
abbrev pub mapped : ℕ
mapped = sc_bitmap * block_size * 8

-- Sector `sec` is free by the bitmap on the disk.
abbrev pub free_on_disk : Fs → ℕ → Bool
free_on_disk k sec = is_free (disk_mask k.disk) sec

-- `i` is the first of the `count` sectors `loc i` that is free in `k`, and in `out` it is taken.
pub record Allocated (count : ℕ) (loc : ℕ → ℕ) (k out : Fs) (i : ℕ) : Type 0 where
  pub in_range : i < count
  pub was_free : free_on_disk k (loc i) ≡ true
  pub first_free : (j : ℕ) → j < i → free_on_disk k (loc j) ≡ false
  pub bits :
      (sec : ℕ)
      → sec < mapped
      → free_on_disk out sec ≡ (if sec == loc i then false else free_on_disk k sec)
  pub other_bytes :
      (b : ℕ)
      → b < sc_bitmap * block_size
      → b ≢ loc i >>> 3
      → disk_mask out.disk b ≡ disk_mask k.disk b
  pub elsewhere :
      (s : ℕ) → ((c : ℕ) → c < sc_bitmap → s ≢ lba (bitmap_sector c)) → out.disk s ≡ k.disk s
  pub inode_kept : out.inode ≡ k.inode
  pub streams_kept : out.streams ≡ k.streams

-- No sector is free: only the copy of the bitmap in memory changes.
pub record Full (count : ℕ) (loc : ℕ → ℕ) (k out : Fs) : Type 0 where
  pub none_free : (j : ℕ) → j < count → free_on_disk k (loc j) ≡ false
  pub disk_kept : out.disk ≡ k.disk
  pub inode_kept : out.inode ≡ k.inode
  pub streams_kept : out.streams ≡ k.streams

pub record Outcome (count : ℕ) (loc : ℕ → ℕ) (k : Fs) (r : Result ℕ) : Type 0 where
  pub out : Fs
  pub index : ℕ
  pub ends : r ≡ done index out
  pub result : ((index ≡ minus_one) × Full count loc k out) ⊎ Allocated count loc k out index

module _ (count : ℕ) (loc : ℕ → ℕ) (low : (i : ℕ) → i < count → loc i < mapped) (k : Fs)
    (bytes : (a : ℕ) → a < sc_bitmap * block_size → disk_mask k.disk a < 256) where
  chosen : ℕ
  chosen = first_from count 0 (λ i. is_free (loaded_mask k.disk k.mask) (loc i))

  same_free :
      (sec : ℕ) → sec < mapped → is_free (loaded_mask k.disk k.mask) sec ≡ free_on_disk k sec
  same_free sec h =
      ap (λ z. bit_and z (bit_in_byte sec) == 0)
        (loaded_mask_lem k.disk k.mask (sec >>> 3) (omega (arith, h)))

  alloc_none :
      chosen ≡ count → alloc count loc k ≡ done minus_one (with_mask (loaded_mask k.disk k.mask) k)
  unfolding alloc chosen
  alloc_none e = rw (
    read_bitmap_lem k,
    eq→== (first_from count 0 (λ i. is_free (loaded_mask k.disk k.mask) (loc i))) count e,
  )

  taken_mask : Bytes
  taken_mask = take_bit (loc chosen) (loaded_mask k.disk k.mask)

  alloc_some :
      chosen ≢ count
      → alloc count loc k
        ≡ done chosen (with_disk (saved_disk taken_mask k.disk) (with_mask taken_mask k))
  unfolding alloc chosen taken_mask
  alloc_some ne =
      let i = first_from count 0 (λ i. is_free (loaded_mask k.disk k.mask) (loc i)) in
      rw (
        read_bitmap_lem k,
        ne→==_false i count ne,
        save_bitmap_lem (with_mask (take_bit (loc i) (loaded_mask k.disk k.mask)) k),
      )

  first : IsFirst 0 count (λ i. is_free (loaded_mask k.disk k.mask) (loc i)) chosen
  unfolding chosen
  first =
      first_from-IsFirst count 0 count (λ i. is_free (loaded_mask k.disk k.mask) (loc i))
        (omega arith)

  none_before : (j : ℕ) → j < count → j < chosen → free_on_disk k (loc j) ≡ false
  none_before j b h = sym (same_free (loc j) (low j b)) ∙ first.none_before j (omega arith) h

  bits_of :
      (sec : ℕ)
      → sec < mapped
      → chosen < count
      → is_free taken_mask sec ≡ (if sec == loc chosen then false else free_on_disk k sec)
  unfolding taken_mask
  bits_of sec h b =
      let byte : loc chosen >>> 3 < sc_bitmap * block_size = omega (arith, low chosen b) in
      is_free-take_bit (loaded_mask k.disk k.mask) (loc chosen) sec (
        subst (λ z. z < 256) (sym (loaded_mask_lem k.disk k.mask (loc chosen >>> 3) byte))
          (bytes (loc chosen >>> 3) byte))
      ∙ ap (λ z. if sec == loc chosen then false else z) (same_free sec h)

  kept_byte :
      (b : ℕ)
      → b < sc_bitmap * block_size
      → b ≢ loc chosen >>> 3
      → taken_mask b ≡ disk_mask k.disk b
  unfolding taken_mask
  kept_byte b h o = rw (ne→==_false b (loc chosen >>> 3) o) (loaded_mask_lem k.disk k.mask b h)

  alloc-Allocated :
      chosen < count
      → Allocated count loc k
          (with_disk (saved_disk taken_mask k.disk) (with_mask taken_mask k))
          chosen
  alloc-Allocated b = record {
    in_range = b;
    was_free = sym (same_free (loc chosen) (low chosen b)) ∙ first.passes b;
    first_free = λ j h. none_before j (omega (arith, b, h)) h;
    bits = λ sec h.
        ap (λ z. bit_and z (bit_in_byte sec) == 0)
          (disk_mask-saved_disk taken_mask k.disk (sec >>> 3) (omega (arith, h)))
        ∙ bits_of sec h b;
    other_bytes = λ b h o. disk_mask-saved_disk taken_mask k.disk b h ∙ kept_byte b h o;
    elsewhere = λ s away. saved_disk_other taken_mask k.disk s away;
    inode_kept = refl;
    streams_kept = refl;
  }

  alloc-Outcome : Outcome count loc k (alloc count loc k)
  alloc-Outcome = elim (Bool-cases (chosen == count)) [
    | inl e ↦
        let e' = ==→eq chosen count e in
        record {
          out = with_mask (loaded_mask k.disk k.mask) k;
          index = minus_one;
          ends = alloc_none e';
          result = inl (
            refl,
            record {
              none_free = λ j b. none_before j b (omega (arith, e', b));
              disk_kept = refl;
              inode_kept = refl;
              streams_kept = refl;
            },
          );
        }
    | inr o ↦
        let b : chosen < count = ground (arith, o, first.inside) in
        record {
          out = with_disk (saved_disk taken_mask k.disk) (with_mask taken_mask k);
          index = chosen;
          ends = alloc_some (λ e. ground (arith, e, o));
          result = inr (alloc-Allocated b);
        }
  ]

-- The sectors are those whose bits readBitmap loads, which Layout compares with the disk's layout.
pub data_alloc_loaded :
    (k : Fs)
    → ((a : ℕ) → a < sc_bitmap * block_size → disk_mask k.disk a < 256)
    → Outcome sc_data loc_data k (data_alloc k)
unfolding data_alloc
data_alloc_loaded k bytes = alloc-Outcome sc_data loc_data (λ i h. omega (arith, h)) k bytes

pub inode_alloc_loaded :
    (k : Fs)
    → ((a : ℕ) → a < sc_bitmap * block_size → disk_mask k.disk a < 256)
    → Outcome sc_inode loc_inode k (inode_alloc k)
unfolding inode_alloc
inode_alloc_loaded k bytes = alloc-Outcome sc_inode loc_inode (λ i h. omega (arith, h)) k bytes

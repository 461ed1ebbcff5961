-- ===== src/FileSystem/Files/Writing.antt =====
-- fs_write_kr inside a file.
use mathlib.Core.Path.{subst}
use sebopesyslab.Base.{
  ℕ, ◌+◌, ◌*◌, ◌<◌, ◌≤◌, ◌≡◌, ◌≢◌, sym, ap, ◌∙◌, false, arith, fun_ext, ◌==◌, add32, lt→ltb,
  le→ltb_false, ne→==_false, ◌>>>◌,
}
use sebopesyslab.Kernel.{update}
use sebopesyslab.FileSystem.{
  Fs, Bytes, word, put_word, copy, lba, loc_inode, loc_dir, loc_data, nr_file_stream, nr_blocks,
  sc_inode, sc_dir, nr_entries, sc_data, block_size,
}
use sebopesyslab.FileSystem.Copying.{copy_to_ext, copy_twice}
use sebopesyslab.FileSystem.Run.{done}
use sebopesyslab.FileSystem.Sectors.{readsect}
use sebopesyslab.FileSystem.Streams.{entry_file_size}
use sebopesyslab.FileSystem.Transfer.{write_base}
use sebopesyslab.FileSystem.Transfer.Content.{content, content_at, block_sector, Apart}
use sebopesyslab.FileSystem.Transfer.Whole.{opened}
use sebopesyslab.FileSystem.Transfer.Replaced.{write_base-Writes}
use sebopesyslab.FileSystem.Files.{start_file, grow_file, save_size, fs_write_kr}
use sebopesyslab.FileSystem.Files.Reading.{IsAt}

-- The inode of that stream, as it stands on the disk.
abbrev pub inode_of : ℕ → Fs → Bytes
inode_of fd k = (opened fd k).inode

-- The stream `fd` is one of a file with `m` different blocks, which are data blocks.
pub record IsFile (m fd : ℕ) (k : Fs) : Type 0 where
  pub small : m ≤ nr_blocks
  pub inode_there : (k.streams fd).inode_offset < sc_inode
  pub entry_there : (k.streams fd).dir_offset < sc_dir
  pub in_sector : (k.streams fd).entry_offset < nr_entries
  pub blocks : (d : ℕ) → d < m → word (inode_of fd k) d < sc_data
  pub different :
      (d e : ℕ) → d < m → e < m → word (inode_of fd k) d ≡ word (inode_of fd k) e → d ≡ e

abbrev dir_sector : ℕ → Fs → ℕ
dir_sector fd k = lba (loc_dir (k.streams fd).dir_offset)

abbrev sized_dir : ℕ → Fs → Bytes
sized_dir fd k =
    put_word (readsect k.dir 0 (loc_dir (k.streams fd).dir_offset) k)
      (entry_file_size (k.streams fd).entry_offset) (k.streams fd).file_size

-- The state with the size in the directory.
abbrev pub sized : ℕ → Fs → Fs
sized fd k = record k {
  dir = sized_dir fd k;
  disk =
      update k.disk (dir_sector fd k)
        (copy block_size (k.disk (dir_sector fd k)) 0 (sized_dir fd k) 0);
}

module _ (m fd pos size : ℕ) (k : Fs) (a : IsAt k fd pos size) (f : IsFile m fd k) where
  pub IsFile-Apart : Apart (inode_of fd k) m
  IsFile-Apart d e l l' same = f.different d e l l' (
      same_word (word (inode_of fd k) d) (word (inode_of fd k) e) (f.blocks d l) (f.blocks e l')
        same)
    where
      same_word :
          (x y : ℕ) → x < sc_data → y < sc_data → lba (loc_data x) ≡ lba (loc_data y) → x ≡ y
      same_word x y h h' e = omega (arith, h, h', e)

  inode-sized : inode_of fd (sized fd k) ≡ inode_of fd k
  inode-sized = rw (
      ne→==_false (lba (loc_inode (k.streams fd).inode_offset)) (dir_sector fd k)
        (omega (arith, f.inode_there, f.entry_there)))

  block_not_dir : (x : ℕ) → x < sc_data → lba (loc_data x) ≢ dir_sector fd k
  block_not_dir x h = omega (arith, h, f.entry_there)

  content-sized :
      (p : ℕ)
      → p < m * block_size
      → content (sized fd k).disk (inode_of fd k) p ≡ content k.disk (inode_of fd k) p
  content-sized p h =
      content_at (sized fd k).disk (inode_of fd k) p
      ∙ (rw (
          ne→==_false (block_sector (inode_of fd k) (p >>> 9)) (dir_sector fd k) (
            block_not_dir (word (inode_of fd k) (p >>> 9))
              (f.blocks (p >>> 9) (omega (arith, h))))))
      ∙ sym (content_at k.disk (inode_of fd k) p)

  start_file_started : (len : ℕ) → size ≢ 0 → start_file fd len k ≡ done tt k
  unfolding start_file
  start_file_started len ne = rw (
    lt→ltb fd nr_file_stream a.bound,
    ne→==_false (k.streams fd).file_size 0 (omega (arith, a.length, ne)),
  )

  grow_file_inside : (len : ℕ) → pos + len ≤ size → grow_file fd len k ≡ done tt k
  unfolding grow_file
  grow_file_inside len h = rw (
    lt→ltb fd nr_file_stream a.bound,
    le→ltb_false (k.streams fd).file_size (add32 (k.streams fd).offset len)
        (omega (arith, a.here, a.length, h, a.has_room)),
  )

  save_size-sized : save_size fd k ≡ done tt (sized fd k)
  unfolding save_size
  save_size-sized =
      rw (
        lt→ltb fd nr_file_stream a.bound,
        lt→ltb (k.streams fd).entry_offset nr_entries f.in_sector,
      )

  fs_write_kr_front :
      (buf len : ℕ) {j : Fs}
      → size ≢ 0
      → pos + len ≤ size
      → write_base fd buf len (sized fd k) ≡ done tt j
      → fs_write_kr fd buf len k ≡ done len j
  unfolding fs_write_kr
  fs_write_kr_front buf len ne h ran =
      rw (start_file_started len ne, grow_file_inside len h, save_size-sized, ran)

-- What a write of `len` bytes at `pos`, inside the file, leaves.
pub record Rewritten (m fd pos len buf : ℕ) (k out : Fs) : Type 0 where
  pub file :
      (p : ℕ)
      → p < m * block_size
      → content out.disk (inode_of fd k) p
        ≡ copy len (content k.disk (inode_of fd k)) pos k.mem buf p
  pub same_inode : inode_of fd out ≡ inode_of fd k
  pub mem_kept : out.mem ≡ k.mem
  pub advanced : out.streams fd ≡ record (k.streams fd) { offset = pos + len }
  pub others : (g : ℕ) → (g == fd) ≡ false → out.streams g ≡ k.streams g
  pub elsewhere :
      (s : ℕ)
      → ((d : ℕ) → d < m → s ≢ block_sector (inode_of fd k) d)
      → s ≢ lba (loc_dir (k.streams fd).dir_offset)
      → out.disk s ≡ k.disk s

pub record Written (m fd pos len buf : ℕ) (k : Fs) : Type 0 where
  pub out : Fs
  pub ends : fs_write_kr fd buf len k ≡ done len out
  pub rewritten : Rewritten m fd pos len buf k out

module _ (m fd pos size : ℕ) (k : Fs) (a : IsAt k fd pos size) (f : IsFile m fd k)
    (buf len : ℕ) where
  inode_again :
      (out : Fs)
      → out.inode ≡ inode_of fd k
      → (out.streams fd).inode_offset ≡ (k.streams fd).inode_offset
      → out.disk (lba (loc_inode (k.streams fd).inode_offset))
        ≡ k.disk (lba (loc_inode (k.streams fd).inode_offset))
      → inode_of fd out ≡ inode_of fd k
  inode_again out same at kept = fun_ext (λ x.
      ap (λ o. readsect out.inode 0 (loc_inode o) out x) at
      ∙ ap (λ z. copy block_size z 0 (out.disk (lba (loc_inode (k.streams fd).inode_offset))) 0 x)
          same
      ∙ ap (λ d. copy block_size (inode_of fd k) 0 d 0 x) kept
      ∙ copy_twice block_size k.inode 0 (k.disk (lba (loc_inode (k.streams fd).inode_offset))) 0 x)

  inode_not_dir :
      lba (loc_inode (k.streams fd).inode_offset) ≢ lba (loc_dir (k.streams fd).dir_offset)
  inode_not_dir = omega (arith, f.inode_there, f.entry_there)

  block_not_inode :
      (d : ℕ) → d < m → lba (loc_inode (k.streams fd).inode_offset) ≢ block_sector (inode_of fd k) d
  block_not_inode d h = apart_sectors (word (inode_of fd k) d) (f.blocks d h)
    where
      apart_sectors :
          (x : ℕ) → x < sc_data → lba (loc_inode (k.streams fd).inode_offset) ≢ lba (loc_data x)
      apart_sectors x h' = omega (arith, h', f.inode_there)

  -- For a stream at pos in a non-empty file of size below 64 KB whose inode and directory
  -- sectors lie in their areas, with an entry of the latter, and whose m blocks are different
  -- data blocks, a write of len bytes that ends within the size and before the last byte of the
  -- blocks returns len; the file has the bytes of memory in that stretch and its old ones
  -- elsewhere, the inode, memory and other streams stay, and no sector changes but those of the
  -- file and its directory sector.
  pub fs_write_kr_inside :
      size ≢ 0 → pos + len ≤ size → pos + len < m * block_size → Written m fd pos len buf k
  fs_write_kr_inside ne h room =
      let i = inode_of fd k in
      let u = sized fd k in
      let same = inode-sized m fd pos size k a f in
      let w =
        write_base-Writes m fd a.bound f.small buf len u pos a.here room
          (subst (λ z. Apart z m) (sym same) (IsFile-Apart m fd pos size k a f)) in
      let r = w.replaced in
      let elsewhere' : (s : ℕ)
          → ((d : ℕ) → d < m → s ≢ block_sector i d)
          → s ≢ lba (loc_dir (k.streams fd).dir_offset)
          → w.out.disk s ≡ k.disk s =
        λ s away not_dir.
          r.elsewhere s (λ d l. subst (λ z. s ≢ block_sector z d) (sym same) (away d l))
          ∙ (rw (ne→==_false s (lba (loc_dir (k.streams fd).dir_offset)) not_dir)) in
      record {
        out = w.out;
        ends = fs_write_kr_front m fd pos size k a f buf len ne h w.ends;
        rewritten = record {
          file = λ p l.
              subst (λ z. content w.out.disk z p ≡ copy len (content u.disk z) pos k.mem buf p) same
                (r.file p l)
              ∙ copy_to_ext len (content u.disk i) (content k.disk i) pos k.mem buf p
                  (content-sized m fd pos size k a f p l);
          same_inode =
              inode_again w.out (r.inode_kept ∙ same) (ap (λ g. g.inode_offset) r.advanced) (
                elsewhere' (lba (loc_inode (k.streams fd).inode_offset)) block_not_inode
                  inode_not_dir);
          mem_kept = r.mem_kept;
          advanced = r.advanced;
          others = r.others;
          elsewhere = elsewhere';
        };
      }

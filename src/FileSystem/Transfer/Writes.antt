-- ===== src/FileSystem/Transfer/Writes.antt =====
-- What the parts of a write do: they replace a stretch of the file by bytes of memory.
use sebopesyslab.Base.{
  ℕ, ◌+◌, ◌-◌, ◌*◌, ◌%◌, ◌<◌, ◌≤◌, ◌≡◌, ◌≢◌, refl, sym, ap, ◌∙◌, false, arith, ◌==◌, add32, ◌>>>◌,
  ne→==_false, eq→==, ==→eq, Bool-cases, inl, inr,
}
use sebopesyslab.Kernel.{update}
use sebopesyslab.FileSystem.{Fs, Bytes, copy, word, loc_data, block_size, nr_file_stream}
use sebopesyslab.FileSystem.Copying.{stretch-cases, copy_inside, copy_before, copy_behind}
use sebopesyslab.FileSystem.Sectors.{readsect}
use sebopesyslab.FileSystem.Transfer.Content.{content, content_at, block_sector, Apart, max_size}
use sebopesyslab.FileSystem.Transfer.Reads.{at_offset}

-- From `k` to `k'`, the `n` bytes at `pos` of a file of `m` blocks became those of memory at `buf`.
pub record Wrote (m fd pos n buf : ℕ) (k k' : Fs) : Type 0 where
  pub mem_kept : k'.mem ≡ k.mem
  pub inode_kept : k'.inode ≡ k.inode
  pub dir_kept : k'.dir ≡ k.dir
  pub mask_kept : k'.mask ≡ k.mask
  pub fcb_kept : k'.fcb ≡ k.fcb
  pub advanced : k'.streams fd ≡ record (k.streams fd) { offset = pos + n }
  pub others : (g : ℕ) → (g == fd) ≡ false → k'.streams g ≡ k.streams g
  pub file :
      (p : ℕ)
      → p < m * block_size
      → content k'.disk k.inode p ≡ copy n (content k.disk k.inode) pos k.mem buf p
  pub elsewhere : (s : ℕ) → ((d : ℕ) → d < m → s ≢ block_sector k.inode d) → k'.disk s ≡ k.disk s

-- The sector of the block at the stream's offset.
abbrev pub here_sector : ℕ → Fs → ℕ
here_sector fd k = block_sector k.inode ((k.streams fd).offset >>> 9)

-- The block is replaced by `b`, and the offset advances by `n`.
abbrev pub written : (fd n : ℕ) (b : Bytes) → Fs → Fs
written fd n b k = record k {
  buffer = b;
  disk = update k.disk (here_sector fd k) (copy block_size (k.disk (here_sector fd k)) 0 b 0);
  streams = update k.streams fd (record (k.streams fd) { offset = add32 (k.streams fd).offset n });
}

abbrev pub filled : (fd buf from n : ℕ) → Fs → Bytes
filled fd buf from n k =
    copy n (readsect k.buffer 0 (loc_data (word k.inode ((k.streams fd).offset >>> 9))) k) from
      k.mem buf

-- The buffer holds the block with `n` bytes at `from` replaced.
abbrev IsFilled : (fd buf from n : ℕ) → Fs → Bytes → Type 0
IsFilled fd buf from n k b =
    (x : ℕ) → x < block_size → b x ≡ copy n (k.disk (here_sector fd k)) from k.mem buf x

content-update_self :
    (disk : ℕ → Bytes) (inode : Bytes) (s : ℕ) (v : Bytes) (p : ℕ)
    → block_sector inode (p >>> 9) ≡ s
    → content (update disk s v) inode p ≡ v (p % block_size)
unfolding content
content-update_self disk inode s v p e = rw (eq→== (block_sector inode (p >>> 9)) s e)

content-update_other :
    (disk : ℕ → Bytes) (inode : Bytes) (s : ℕ) (v : Bytes) (p : ℕ)
    → block_sector inode (p >>> 9) ≢ s
    → content (update disk s v) inode p ≡ content disk inode p
unfolding content
content-update_other disk inode s v p ne = rw (ne→==_false (block_sector inode (p >>> 9)) s ne)

module _ (m fd : ℕ) (bound : fd < nr_file_stream) where
  module _ (pos buf from n : ℕ) (k : Fs) (here : (k.streams fd).offset ≡ pos)
      (inside : pos < m * block_size) (at : from ≡ pos % block_size)
      (fits : from + n ≤ block_size) where
    same_block :
        (b : Bytes)
        → IsFilled fd buf from n k b
        → (p : ℕ) → p >>> 9 ≡ (k.streams fd).offset >>> 9
        → content (written fd n b k).disk k.inode p
          ≡ copy n (content k.disk k.inode) pos k.mem buf p
    same_block b f p e =
        let s = here_sector fd k in
        let x = p % block_size in
        let y = 0 + (x - 0) in
        let lhs : content (written fd n b k).disk k.inode p ≡ copy n (k.disk s) from k.mem buf x =
          content-update_self k.disk k.inode s (copy block_size (k.disk s) 0 b 0) p
            (ap (block_sector k.inode) e)
          ∙ copy_inside block_size (k.disk s) 0 b 0 x (omega arith) (omega arith)
          ∙ f y (omega arith)
          ∙ ap (copy n (k.disk s) from k.mem buf) {x = y} {y = x} (omega arith) in
        let old : k.disk s x ≡ content k.disk k.inode p =
          ap (λ d. k.disk (block_sector k.inode d) x) (sym e) ∙ sym (content_at k.disk k.inode p) in
        elim (stretch-cases from n x) [
          | inl before ↦
              lhs
              ∙ copy_before n (k.disk s) from k.mem buf x before
              ∙ old
              ∙ sym (
                  copy_before n (content k.disk k.inode) pos k.mem buf p
                    (omega (arith, before, e, at, here)))
          | inr (inl (low, high)) ↦
              lhs
              ∙ copy_inside n (k.disk s) from k.mem buf x low high
              ∙ ap k.mem (omega (arith, low, high, e, at, here))
              ∙ sym (
                  copy_inside n (content k.disk k.inode) pos k.mem buf p
                    (omega (arith, low, e, at, here)) (omega (arith, high, low, e, at, here)))
          | inr (inr behind) ↦
              lhs
              ∙ copy_behind n (k.disk s) from k.mem buf x behind
              ∙ old
              ∙ sym (
                  copy_behind n (content k.disk k.inode) pos k.mem buf p
                    (omega (arith, behind, e, at, here)))
        ]

    other_block :
        (b : Bytes)
        → Apart k.inode m
        → (p : ℕ) → p < m * block_size
        → p >>> 9 ≢ (k.streams fd).offset >>> 9
        → content (written fd n b k).disk k.inode p
          ≡ copy n (content k.disk k.inode) pos k.mem buf p
    other_block b apart p low ne =
        let s = here_sector fd k in
        let kept : content (written fd n b k).disk k.inode p ≡ content k.disk k.inode p =
          content-update_other k.disk k.inode s (copy block_size (k.disk s) 0 b 0) p (λ same. ne (
            apart (p >>> 9) ((k.streams fd).offset >>> 9) (omega (arith, low))
              (omega (arith, here, inside)) same)) in
        elim (stretch-cases pos n p) [
          | inl before ↦ kept ∙ sym (copy_before n (content k.disk k.inode) pos k.mem buf p before)
          | inr (inl (l, h)) ↦ absurd (ne (omega (arith, l, h, at, fits, here)))
          | inr (inr behind) ↦
              kept ∙ sym (copy_behind n (content k.disk k.inode) pos k.mem buf p behind)
        ]

    pub written-Wrote :
        (b : Bytes)
        → IsFilled fd buf from n k b
        → Apart k.inode m
        → pos < max_size
        → Wrote m fd pos n buf k (written fd n b k)
    written-Wrote b f apart low = record {
      mem_kept = refl;
      inode_kept = refl;
      dir_kept = refl;
      mask_kept = refl;
      fcb_kept = refl;
      advanced =
          rw (eq→== fd fd refl)
            (ap (λ o. at_offset o (k.streams fd)) (omega (arith, here, low, fits)));
      others = λ g ne. rw ne;
      file = λ p h. elim (Bool-cases ((p >>> 9) == ((k.streams fd).offset >>> 9))) [
        | inl y ↦ same_block b f p (==→eq _ _ y)
        | inr o ↦ other_block b apart p h (λ e. ground (arith, o, e))
      ];
      elsewhere = λ s away. rw (
          ne→==_false s (here_sector fd k)
            (away ((k.streams fd).offset >>> 9) (omega (arith, here, inside))));
    }

-- ===== src/FileSystem/Transfer/Rewriting.antt =====
-- Writes in sequence: the parts and the loop of fs_write_base_kr.
use mathlib.Core.Path.{subst}
use sebopesyslab.Base.{
  ℕ, zero, suc, ◌+◌, ◌-◌, ◌*◌, ◌%◌, ◌^◌, ◌<◌, ◌≤◌, ◌≡◌, ◌≢◌, refl, sym, ap, ◌∙◌, true, false, arith,
  add32, sub32, ◌>>>◌, lt→ltb, le→ltb_false, lt→leb_false, Bool-cases, inl, inr,
}
use sebopesyslab.FileSystem.{Fs, copy, word, loc_data, block_size, nr_blocks, nr_file_stream}
use sebopesyslab.FileSystem.Copying.{
  stretch-cases, copy_inside, copy_before, copy_behind, copy-append, copy_to_ext,
}
use sebopesyslab.FileSystem.Run.{Result, done}
use sebopesyslab.FileSystem.Sectors.{readsect}
use sebopesyslab.FileSystem.Transfer.{write_part, write_block, write_loop, block_left}
use sebopesyslab.FileSystem.Transfer.Content.{content, block_sector, Apart}
use sebopesyslab.FileSystem.Transfer.Reads.{
  readsect_lem, at_offset, pair_eq, block_left→le, block_left→lt,
}
use sebopesyslab.FileSystem.Transfer.Writes.{Wrote, written, written-Wrote, filled, here_sector}

pub Wrote-none :
    (m fd pos buf : ℕ) (k : Fs) → (k.streams fd).offset ≡ pos → Wrote m fd pos 0 buf k k
Wrote-none m fd pos buf k here = record {
  mem_kept = refl;
  inode_kept = refl;
  dir_kept = refl;
  mask_kept = refl;
  fcb_kept = refl;
  advanced = ap (λ o. at_offset o (k.streams fd)) (omega (arith, here));
  others = λ g ne. refl;
  file = λ a h. elim (stretch-cases pos 0 a) [
    | inl before ↦ sym (copy_before 0 (content k.disk k.inode) pos k.mem buf a before)
    | inr (inl (from, to_end)) ↦ absurd (omega (arith, from, to_end))
    | inr (inr behind) ↦ sym (copy_behind 0 (content k.disk k.inode) pos k.mem buf a behind)
  ];
  elsewhere = λ s away. refl;
}

pub Wrote-trans :
    {m fd pos n o buf : ℕ} {k j l : Fs}
    → Wrote m fd pos n buf k j
    → Wrote m fd (pos + n) o (buf + n) j l
    → Wrote m fd pos (n + o) buf k l
Wrote-trans {m} {fd} {pos} {n} {o} {buf} {k} {j} {l} a b = record {
  mem_kept = b.mem_kept ∙ a.mem_kept;
  inode_kept = b.inode_kept ∙ a.inode_kept;
  dir_kept = b.dir_kept ∙ a.dir_kept;
  mask_kept = b.mask_kept ∙ a.mask_kept;
  fcb_kept = b.fcb_kept ∙ a.fcb_kept;
  advanced =
      b.advanced
      ∙ ap (at_offset (pos + n + o)) a.advanced
      ∙ ap (λ x. at_offset x (k.streams fd)) (omega arith);
  others = λ g ne. b.others g ne ∙ a.others g ne;
  file = λ p h.
      subst (λ i. content l.disk i p ≡ copy o (content j.disk i) (pos + n) k.mem (buf + n) p)
        a.inode_kept
        (subst
          (λ w. content l.disk j.inode p ≡ copy o (content j.disk j.inode) (pos + n) w (buf + n) p)
          a.mem_kept (b.file p h))
      ∙ copy-append n o (content k.disk k.inode) (content j.disk k.inode) pos k.mem buf p
          (a.file p h);
  elsewhere = λ s away.
      b.elsewhere s (λ d h. subst (λ i. s ≢ block_sector i d) (sym a.inode_kept) (away d h))
      ∙ a.elsewhere s away;
}

-- A write of `n` bytes at `pos` ends, in `out`.
pub record Writes {A : Type 0} (m fd pos n buf : ℕ) (k : Fs) (a : A) (r : Result A) : Type 0 where
  pub out : Fs
  pub ends : r ≡ done a out
  pub replaced : Wrote m fd pos n buf k out

pub Writes-step :
    {A : Type 0} {m fd pos n o buf pos' buf' n' : ℕ} {k j : Fs} {a a' : A} {r r' : Result A}
    → Wrote m fd pos n buf k j
    → Writes m fd pos' o buf' j a r'
    → pos' ≡ pos + n
    → buf' ≡ buf + n
    → r ≡ r'
    → n + o ≡ n'
    → a ≡ a'
    → Writes m fd pos n' buf k a' r
Writes-step {m = m} {fd} {pos} {n} {o} {buf} {pos'} {buf'} {n'} {k} {j} t rest e e' ran sum same =
    record {
      out = rest.out;
      ends = ran ∙ rest.ends ∙ ap (λ z. done z rest.out) same;
      replaced =
          subst (λ z. Wrote m fd pos z buf k rest.out) sum
            (Wrote-trans t (
              subst (λ p. Wrote m fd p o (buf + n) j rest.out) e
                (subst (λ b. Wrote m fd pos' o b j rest.out) e' rest.replaced)));
    }

module _ (m fd : ℕ) (bound : fd < nr_file_stream) (small : m ≤ nr_blocks) where
  module _ (pos buf : ℕ) (k : Fs) (here : (k.streams fd).offset ≡ pos)
      (inside : pos < m * block_size) where
    write_part-ok :
        (from n : ℕ)
        → from + n ≤ block_size
        → write_part fd buf from n k ≡ done tt (written fd n (filled fd buf from n k) k)
    unfolding write_part
    write_part-ok from n fits = rw (
      lt→ltb fd nr_file_stream bound,
      lt→leb_false nr_blocks ((k.streams fd).offset >>> 9) (omega (arith, inside, here, small)),
      le→ltb_false block_size (from + n) fits,
      lt→ltb fd nr_file_stream bound,
    )

    write_block-ok :
        write_block fd buf k
        ≡ done tt (written fd block_size (copy block_size k.buffer 0 k.mem buf) k)
    unfolding write_block
    write_block-ok = rw (
      lt→ltb fd nr_file_stream bound,
      lt→leb_false nr_blocks ((k.streams fd).offset >>> 9) (omega (arith, inside, here, small)),
      lt→ltb fd nr_file_stream bound,
    )

    pub write_part-Writes :
        (from n : ℕ)
        → Apart k.inode m
        → from ≡ pos % block_size
        → from + n ≤ block_size
        → Writes m fd pos n buf k tt (write_part fd buf from n k)
    write_part-Writes from n apart at fits = record {
      out = written fd n (filled fd buf from n k) k;
      ends = write_part-ok from n fits;
      replaced =
          written-Wrote m fd bound pos buf from n k here inside at fits (filled fd buf from n k)
            (λ x h.
              copy_to_ext n
                (readsect k.buffer 0 (loc_data (word k.inode ((k.streams fd).offset >>> 9))) k)
                (k.disk (here_sector fd k)) from k.mem buf x
                (readsect_lem k.buffer (loc_data (word k.inode ((k.streams fd).offset >>> 9))) k x
                  h))
            apart (omega (arith, inside, small));
    }

    pub write_block-Writes :
        Apart k.inode m
        → pos % block_size ≡ 0
        → Writes m fd pos block_size buf k tt (write_block fd buf k)
    write_block-Writes apart at = record {
      out = written fd block_size (copy block_size k.buffer 0 k.mem buf) k;
      ends = write_block-ok;
      replaced =
          written-Wrote m fd bound pos buf 0 block_size k here inside (sym at) (omega arith)
            (copy block_size k.buffer 0 k.mem buf)
            (λ x h.
              copy_inside block_size k.buffer 0 k.mem buf x (omega arith) (omega (arith, h))
              ∙ sym (
                  copy_inside block_size (k.disk (here_sector fd k)) 0 k.mem buf x (omega arith)
                    (omega (arith, h))))
            apart (omega (arith, inside, small));
    }

  write_round :
      (t buf offset len : ℕ) (k : Fs) {j : Fs}
      → block_left len ≡ true
      → write_block fd (buf + offset) k ≡ done tt j
      → write_loop (suc t) fd buf offset len k
        ≡ write_loop t fd buf (add32 offset block_size) (sub32 len block_size) j
  unfolding write_loop
  write_round t buf offset len k e ran = rw (e, ran)

  rounds_end :
      (t buf offset len : ℕ) (k : Fs)
      → block_left len ≡ false
      → write_loop (suc t) fd buf offset len k ≡ done (offset, len) k
  unfolding write_loop
  rounds_end t buf offset len k e = rw e

  -- The rounds for full blocks write all but the last `len % 512` bytes.
  pub write_loop-Writes :
      (t pos buf offset len : ℕ) (k : Fs)
      → Apart k.inode m
      → (k.streams fd).offset ≡ pos
      → pos % block_size ≡ 0
      → pos + len < m * block_size
      → offset + len < 2 ^ 32
      → len < t * block_size
      → Writes m fd pos
          (len - len % block_size)
          (buf + offset)
          k
          (offset + (len - len % block_size), len % block_size)
          (write_loop t fd buf offset len k)
  write_loop-Writes zero pos buf offset len k apart here at inside room fuel =
      absurd (omega (arith, fuel))
  write_loop-Writes (suc t) pos buf offset len k apart here at inside room fuel =
      elim (Bool-cases (block_left len)) [
        | inl more ↦
            let part =
              write_block-Writes pos (buf + offset) k here (omega (arith, inside)) apart at in
            let long = block_left→le len more in
            let rest =
              write_loop-Writes t (pos + block_size) buf (add32 offset block_size)
                (sub32 len block_size) part.out
                (subst (λ i. Apart i m) (sym part.replaced.inode_kept) apart)
                (ap (λ f. f.offset) part.replaced.advanced) (omega (arith, at))
                (omega (arith, inside, long, small)) (omega (arith, room, long, inside, small))
                (omega (arith, fuel, long, inside, small)) in
            Writes-step part.replaced rest refl (omega (arith, room, inside, long, small))
              (write_round t buf offset len k more part.ends)
              (omega (arith, room, inside, long, small))
              (pair_eq (omega (arith, room, inside, long, small))
                (omega (arith, room, inside, long, small)))
        | inr last ↦
            let short = block_left→lt len (omega (arith, inside, small)) last in
            record {
              out = k;
              ends =
                  rounds_end t buf offset len k last
                  ∙ ap (λ z. done z k) (pair_eq (omega (arith, short)) (omega (arith, short)));
              replaced =
                  subst (λ z. Wrote m fd pos z (buf + offset) k k) {x = 0} (omega (arith, short))
                    (Wrote-none m fd pos (buf + offset) k here);
            }
      ]

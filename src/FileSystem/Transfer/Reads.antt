-- ===== src/FileSystem/Transfer/Reads.antt =====
-- What the parts of a read do: they copy a stretch of the file to memory.
use mathlib.Core.Path.{subst}
use sebopesyslab.Base.{
  ℕ, zero, suc, ◌+◌, ◌-◌, ◌*◌, ◌%◌, ◌^◌, ◌<◌, ◌≤◌, ◌≡◌, refl, sym, ap, ◌∙◌, true, false, arith,
  ◌==◌, add32, sub32, ◌>>>◌, lt→ltb, le→leb, le→ltb_false, lt→leb_false, eq→==, Bool-cases, inl,
  inr,
}
use sebopesyslab.Kernel.{update}
use sebopesyslab.FileSystem.{
  Fs, Stream, Bytes, copy, word, lba, loc_data, block_size, nr_blocks, nr_file_stream,
}
use sebopesyslab.FileSystem.Copying.{stretch-cases, copy_before, copy_behind, copy_ext, copy-append}
use sebopesyslab.FileSystem.Run.{Result, done}
use sebopesyslab.FileSystem.Sectors.{readsect}
use sebopesyslab.FileSystem.Transfer.{read_part, read_loop, block_left}
use sebopesyslab.FileSystem.Transfer.Content.{content, content_lem, max_size}

-- From `k` to `k'`, the `n` bytes at `pos` of the file with that inode went to memory at `buf`.
pub record Took (fd pos n buf : ℕ) (k k' : Fs) : Type 0 where
  pub disk_kept : k'.disk ≡ k.disk
  pub inode_kept : k'.inode ≡ k.inode
  pub dir_kept : k'.dir ≡ k.dir
  pub mask_kept : k'.mask ≡ k.mask
  pub fcb_kept : k'.fcb ≡ k.fcb
  pub advanced : k'.streams fd ≡ record (k.streams fd) { offset = pos + n }
  pub others : (g : ℕ) → (g == fd) ≡ false → k'.streams g ≡ k.streams g
  pub memory : (a : ℕ) → k'.mem a ≡ copy n k.mem buf (content k.disk k.inode) pos a

abbrev took : (fd buf from n : ℕ) → Fs → Fs
took fd buf from n k =
    let b = readsect k.buffer 0 (loc_data (word k.inode ((k.streams fd).offset >>> 9))) k in
    record k {
      buffer = b;
      mem = copy n k.mem buf b from;
      streams =
          update k.streams fd (record (k.streams fd) { offset = add32 (k.streams fd).offset n });
    }

pub readsect_lem :
    (to : Bytes) (offset : ℕ) (k : Fs) (x : ℕ)
    → x < block_size
    → readsect to 0 offset k x ≡ k.disk (lba offset) x
readsect_lem to offset k x h =
    rw (le→leb 0 x (omega arith), lt→ltb x (0 + block_size) (omega (arith, h)))
      (ap (k.disk (lba offset)) (omega arith))

module _ (fd : ℕ) (bound : fd < nr_file_stream) where
  read_part-ok :
      (buf from n : ℕ) (k : Fs)
      → (k.streams fd).offset < max_size
      → from + n ≤ block_size
      → read_part fd buf from n k ≡ done tt (took fd buf from n k)
  unfolding read_part
  read_part-ok buf from n k inside fits = rw (
    lt→ltb fd nr_file_stream bound,
    lt→leb_false nr_blocks ((k.streams fd).offset >>> 9) (omega (arith, inside)),
    le→ltb_false block_size (from + n) fits,
    lt→ltb fd nr_file_stream bound,
  )

  took-Took :
      (buf from n : ℕ) (k : Fs)
      → (k.streams fd).offset < max_size
      → from ≡ (k.streams fd).offset % block_size
      → from + n ≤ block_size
      → Took fd (k.streams fd).offset n buf k (took fd buf from n k)
  took-Took buf from n k inside at fits = record {
    disk_kept = refl;
    inode_kept = refl;
    dir_kept = refl;
    mask_kept = refl;
    fcb_kept = refl;
    advanced =
        rw (eq→== fd fd refl)
          (ap (λ o. record (k.streams fd) { offset = o }) (omega (arith, inside, fits)));
    others = λ g ne. rw ne;
    memory = λ a.
        copy_ext n k.mem buf
          (readsect k.buffer 0 (loc_data (word k.inode ((k.streams fd).offset >>> 9))) k)
          (content k.disk k.inode) from (k.streams fd).offset a
          (λ x h.
            readsect_lem k.buffer _ k (from + x) (omega (arith, h, fits))
            ∙ sym (
                content_lem k.disk k.inode (k.streams fd).offset from x at
                  (omega (arith, h, fits))));
  }

abbrev pub at_offset : ℕ → Stream → Stream
at_offset o f = record f { offset = o }

pub Took-none : (fd pos buf : ℕ) (k : Fs) → (k.streams fd).offset ≡ pos → Took fd pos 0 buf k k
Took-none fd pos buf k here = record {
  disk_kept = refl;
  inode_kept = refl;
  dir_kept = refl;
  mask_kept = refl;
  fcb_kept = refl;
  advanced = ap (λ o. at_offset o (k.streams fd)) (omega (arith, here));
  others = λ g ne. refl;
  memory = λ a. elim (stretch-cases buf 0 a) [
    | inl before ↦ sym (copy_before 0 k.mem buf (content k.disk k.inode) pos a before)
    | inr (inl (from, to_end)) ↦ absurd (omega (arith, from, to_end))
    | inr (inr behind) ↦ sym (copy_behind 0 k.mem buf (content k.disk k.inode) pos a behind)
  ];
}

pub Took-trans :
    {fd pos n m buf : ℕ} {k j l : Fs}
    → Took fd pos n buf k j
    → Took fd (pos + n) m (buf + n) j l
    → Took fd pos (n + m) buf k l
Took-trans {fd} {pos} {n} {m} {buf} {k} {j} {l} a b = record {
  disk_kept = b.disk_kept ∙ a.disk_kept;
  inode_kept = b.inode_kept ∙ a.inode_kept;
  dir_kept = b.dir_kept ∙ a.dir_kept;
  mask_kept = b.mask_kept ∙ a.mask_kept;
  fcb_kept = b.fcb_kept ∙ a.fcb_kept;
  advanced =
      b.advanced
      ∙ ap (at_offset (pos + n + m)) a.advanced
      ∙ ap (λ o. at_offset o (k.streams fd)) (omega arith);
  others = λ g ne. b.others g ne ∙ a.others g ne;
  memory = λ x.
      b.memory x
      ∙ ap (λ d. copy m j.mem (buf + n) (content d j.inode) (pos + n) x) a.disk_kept
      ∙ ap (λ i. copy m j.mem (buf + n) (content k.disk i) (pos + n) x) a.inode_kept
      ∙ copy-append n m k.mem j.mem buf (content k.disk k.inode) pos x (a.memory x);
}

-- A read of `n` bytes at `pos` ends, in `out`.
pub record Reads {A : Type 0} (fd pos n buf : ℕ) (k : Fs) (a : A) (r : Result A) : Type 0 where
  pub out : Fs
  pub ends : r ≡ done a out
  pub copied : Took fd pos n buf k out

pub pair_eq : {a b c d : ℕ} → a ≡ b → c ≡ d → ◌≡◌ {A = ℕ × ℕ} (a, c) (b, d)
pair_eq e f = λ i. (e i, f i)

-- A read behind another.
pub Reads-step :
    {A : Type 0} {fd pos n m buf pos' buf' n' : ℕ} {k j : Fs} {a a' : A} {r r' : Result A}
    → Took fd pos n buf k j
    → Reads fd pos' m buf' j a r'
    → pos' ≡ pos + n
    → buf' ≡ buf + n
    → r ≡ r'
    → n + m ≡ n'
    → a ≡ a'
    → Reads fd pos n' buf k a' r
Reads-step {fd = fd} {pos} {n} {m} {buf} {pos'} {buf'} {n'} {k} {j} t rest e e' ran sum same =
    record {
      out = rest.out;
      ends = ran ∙ rest.ends ∙ ap (λ z. done z rest.out) same;
      copied =
          subst (λ z. Took fd pos z buf k rest.out) sum
            (Took-trans t (
              subst (λ p. Took fd p m (buf + n) j rest.out) e
                (subst (λ b. Took fd pos' m b j rest.out) e' rest.copied)));
    }

pub block_left→le : (len : ℕ) → block_left len ≡ true → block_size ≤ len
block_left→le len h = ground (arith, h)

pub block_left→lt : (len : ℕ) → len < 2 ^ 31 → block_left len ≡ false → len < block_size
block_left→lt len small h = ground (arith, h)

module _ (fd : ℕ) (bound : fd < nr_file_stream) where
  pub read_part-Reads :
      (pos buf from n : ℕ) (k : Fs)
      → (k.streams fd).offset ≡ pos
      → pos < max_size
      → from ≡ pos % block_size
      → from + n ≤ block_size
      → Reads fd pos n buf k tt (read_part fd buf from n k)
  read_part-Reads pos buf from n k here inside at fits =
      let inside' : (k.streams fd).offset < max_size = omega (arith, here, inside) in
      record {
        out = took fd buf from n k;
        ends = read_part-ok fd bound buf from n k inside' fits;
        copied =
            subst (λ p. Took fd p n buf k (took fd buf from n k)) here
              (took-Took fd bound buf from n k inside' (omega (arith, here, at)) fits);
      }

  read_round :
      (t buf offset len : ℕ) (k : Fs) {j : Fs}
      → block_left len ≡ true
      → read_part fd (buf + offset) 0 block_size k ≡ done tt j
      → read_loop (suc t) fd buf offset len k
        ≡ read_loop t fd buf (add32 offset block_size) (sub32 len block_size) j
  unfolding read_loop
  read_round t buf offset len k e ran = rw (e, ran)

  loop_ends :
      (t buf offset len : ℕ) (k : Fs)
      → block_left len ≡ false
      → read_loop (suc t) fd buf offset len k ≡ done (offset, len) k
  unfolding read_loop
  loop_ends t buf offset len k e = rw e

  -- The rounds for full blocks copy all but the last `len % 512` bytes.
  pub read_loop-Reads :
      (t pos buf offset len : ℕ) (k : Fs)
      → (k.streams fd).offset ≡ pos
      → pos % block_size ≡ 0
      → pos + len < max_size
      → offset + len < 2 ^ 32
      → len < t * block_size
      → Reads fd pos
          (len - len % block_size)
          (buf + offset)
          k
          (offset + (len - len % block_size), len % block_size)
          (read_loop t fd buf offset len k)
  read_loop-Reads zero pos buf offset len k here at inside room fuel = absurd (omega (arith, fuel))
  read_loop-Reads (suc t) pos buf offset len k here at inside room fuel =
      elim (Bool-cases (block_left len)) [
        | inl more ↦
            let part =
              read_part-Reads pos (buf + offset) 0 block_size k here (omega (arith, inside))
                (omega (arith, at)) (omega arith) in
            let long = block_left→le len more in
            let rest =
              read_loop-Reads t (pos + block_size) buf (add32 offset block_size)
                (sub32 len block_size) part.out (ap (λ f. f.offset) part.copied.advanced)
                (omega (arith, at)) (omega (arith, inside, long))
                (omega (arith, room, long, inside)) (omega (arith, fuel, long, inside)) in
            Reads-step part.copied rest refl (omega (arith, room, inside, long))
              (read_round t buf offset len k more part.ends) (omega (arith, room, inside, long))
              (pair_eq (omega (arith, room, inside, long)) (omega (arith, room, inside, long)))
        | inr last ↦
            let short = block_left→lt len (omega (arith, inside)) last in
            record {
              out = k;
              ends =
                  loop_ends t buf offset len k last
                  ∙ ap (λ z. done z k) (pair_eq (omega (arith, short)) (omega (arith, short)));
              copied =
                  subst (λ z. Took fd pos z (buf + offset) k k) {x = 0} (omega (arith, short))
                    (Took-none fd pos (buf + offset) k here);
            }
      ]

-- ===== src/FileSystem/Transfer/Whole.antt =====
-- fs_read_base_kr as a whole.
use mathlib.Core.Path.{subst}
use sebopesyslab.Base.{
  ℕ, ◌+◌, ◌-◌, ◌%◌, ◌<◌, ◌≤◌, ◌≡◌, refl, sym, ap, ◌∙◌, true, false, arith, ltb, add32, sub32,
  lt→ltb, Bool-cases, inl, inr,
}
use sebopesyslab.FileSystem.{Fs, loc_inode, block_size, nr_file_stream}
use sebopesyslab.FileSystem.Run.{done}
use sebopesyslab.FileSystem.Sectors.{readsect}
use sebopesyslab.FileSystem.Transfer.{read_part, read_loop, read_base, max_rounds}
use sebopesyslab.FileSystem.Transfer.Content.{max_size}
use sebopesyslab.FileSystem.Transfer.Reads.{Reads, Reads-step, read_part-Reads, read_loop-Reads}

-- The state with the inode of that stream in the buffer.
abbrev pub opened : ℕ → Fs → Fs
opened fd k = record k { inode = readsect k.inode 0 (loc_inode (k.streams fd).inode_offset) k }

module _ (fd : ℕ) (bound : fd < nr_file_stream) (buf len : ℕ) (k : Fs) where
  read_base_short :
      ltb block_size (add32 ((k.streams fd).offset % block_size) len) ≡ false
      → read_base fd buf len k
        ≡ read_part fd buf ((k.streams fd).offset % block_size) len (opened fd k)
  unfolding read_base
  read_base_short e = rw (lt→ltb fd nr_file_stream bound, e)

  read_base_long :
      {r o l : ℕ} {j m : Fs}
      → (k.streams fd).offset % block_size ≡ r
      → ltb block_size (add32 r len) ≡ true
      → read_part fd buf r (block_size - r) (opened fd k) ≡ done tt j
      → read_loop max_rounds fd buf (block_size - r) (sub32 len (block_size - r)) j ≡ done (o, l) m
      → read_base fd buf len k ≡ read_part fd (buf + o) 0 l m
  unfolding read_base
  read_base_long at e part rounds = rw (lt→ltb fd nr_file_stream bound, at, e, part, rounds)

  -- A read that ends before the file's 64 KB do copies its `len` bytes.
  pub read_base-Reads :
      (pos : ℕ)
      → (k.streams fd).offset ≡ pos
      → pos + len < max_size
      → Reads fd pos len buf (opened fd k) tt (read_base fd buf len k)
  read_base-Reads pos here inside =
      let r = pos % block_size in
      elim (Bool-cases (ltb block_size (add32 r len))) [
        | inl long ↦
            let more : block_size < r + len = ground (arith, long, inside) in
            let part =
              read_part-Reads fd bound pos buf r (block_size - r) (opened fd k) here
                (omega (arith, inside)) refl (omega arith) in
            let rest =
              read_loop-Reads fd bound max_rounds (pos + (block_size - r)) buf (block_size - r)
                (sub32 len (block_size - r)) part.out (ap (λ f. f.offset) part.copied.advanced)
                (omega (arith, more)) (omega (arith, more, inside)) (omega (arith, more, inside))
                (omega (arith, more, inside)) in
            let body = (sub32 len (block_size - r)) - (sub32 len (block_size - r)) % block_size in
            let last =
              read_part-Reads fd bound (pos + (block_size - r) + body)
                (buf + ((block_size - r) + body)) 0 (sub32 len (block_size - r) % block_size)
                rest.out (ap (λ f. f.offset) rest.copied.advanced) (omega (arith, more, inside))
                (omega (arith, more, inside)) (omega arith) in
            Reads-step part.copied (Reads-step rest.copied last refl (omega arith) refl refl refl)
              refl refl (read_base_long (ap (λ o. o % block_size) here) long part.ends rest.ends)
              (omega (arith, more, inside)) refl
        | inr short ↦
            let fits : r + len ≤ block_size = ground (arith, short, inside) in
            subst (λ z. Reads fd pos len buf (opened fd k) tt z)
              (sym (
                read_base_short (ap (λ o. ltb block_size (add32 (o % block_size) len)) here ∙ short)
                ∙ ap (λ o. read_part fd buf (o % block_size) len (opened fd k)) here))
              (read_part-Reads fd bound pos buf r len (opened fd k) here (omega (arith, inside))
                refl fits)
      ]

-- ===== src/FileSystem/Transfer/Replaced.antt =====
-- fs_write_base_kr as a whole.
use mathlib.Core.Path.{subst}
use sebopesyslab.Base.{
  ℕ, ◌+◌, ◌-◌, ◌*◌, ◌%◌, ◌<◌, ◌≤◌, ◌≡◌, refl, sym, ap, ◌∙◌, true, false, arith, ltb, add32, sub32,
  lt→ltb, Bool-cases, inl, inr,
}
use sebopesyslab.FileSystem.{Fs, block_size, nr_blocks, nr_file_stream}
use sebopesyslab.FileSystem.Run.{done}
use sebopesyslab.FileSystem.Transfer.{write_part, write_loop, write_base, max_rounds}
use sebopesyslab.FileSystem.Transfer.Content.{Apart}
use sebopesyslab.FileSystem.Transfer.Whole.{opened}
use sebopesyslab.FileSystem.Transfer.Rewriting.{
  Writes, Writes-step, write_part-Writes, write_loop-Writes,
}

module _ (m fd : ℕ) (bound : fd < nr_file_stream) (small : m ≤ nr_blocks) (buf len : ℕ)
    (k : Fs) where
  write_base_short :
      ltb block_size (add32 ((k.streams fd).offset % block_size) len) ≡ false
      → write_base fd buf len k
        ≡ write_part fd buf ((k.streams fd).offset % block_size) len (opened fd k)
  unfolding write_base
  write_base_short e = rw (lt→ltb fd nr_file_stream bound, e)

  write_base_long :
      {r o l : ℕ} {j t : Fs}
      → (k.streams fd).offset % block_size ≡ r
      → ltb block_size (add32 r len) ≡ true
      → write_part fd buf r (block_size - r) (opened fd k) ≡ done tt j
      → write_loop max_rounds fd buf (block_size - r) (sub32 len (block_size - r)) j ≡ done (o, l) t
      → write_base fd buf len k ≡ write_part fd (buf + o) 0 l t
  unfolding write_base
  write_base_long at e part rounds = rw (lt→ltb fd nr_file_stream bound, at, e, part, rounds)

  -- A write that ends before the last byte of the file's `m` blocks replaces its `len` bytes.
  pub write_base-Writes :
      (pos : ℕ)
      → (k.streams fd).offset ≡ pos
      → pos + len < m * block_size
      → Apart (opened fd k).inode m
      → Writes m fd pos len buf (opened fd k) tt (write_base fd buf len k)
  write_base-Writes pos here inside apart =
      let r = pos % block_size in
      elim (Bool-cases (ltb block_size (add32 r len))) [
        | inl long ↦
            let more : block_size < r + len = ground (arith, long, inside, small) in
            let part =
              write_part-Writes m fd bound small pos buf (opened fd k) here (omega (arith, inside))
                r (block_size - r) apart refl (omega arith) in
            let apart' = subst (λ i. Apart i m) (sym part.replaced.inode_kept) apart in
            let rest =
              write_loop-Writes m fd bound small max_rounds (pos + (block_size - r)) buf
                (block_size - r) (sub32 len (block_size - r)) part.out apart'
                (ap (λ f. f.offset) part.replaced.advanced) (omega (arith, more))
                (omega (arith, more, inside, small)) (omega (arith, more, inside, small))
                (omega (arith, more, inside, small)) in
            let apart'' = subst (λ i. Apart i m) (sym rest.replaced.inode_kept) apart' in
            let body = (sub32 len (block_size - r)) - (sub32 len (block_size - r)) % block_size in
            let last =
              write_part-Writes m fd bound small (pos + (block_size - r) + body)
                (buf + ((block_size - r) + body)) rest.out
                (ap (λ f. f.offset) rest.replaced.advanced) (omega (arith, more, inside, small)) 0
                (sub32 len (block_size - r) % block_size) apart''
                (omega (arith, more, inside, small)) (omega arith) in
            Writes-step part.replaced
              (Writes-step rest.replaced last refl (omega arith) refl refl refl) refl refl
              (write_base_long (ap (λ o. o % block_size) here) long part.ends rest.ends)
              (omega (arith, more, inside, small)) refl
        | inr short ↦
            let fits : r + len ≤ block_size = ground (arith, short, inside, small) in
            subst (λ z. Writes m fd pos len buf (opened fd k) tt z)
              (sym (
                write_base_short
                  (ap (λ o. ltb block_size (add32 (o % block_size) len)) here ∙ short)
                ∙ ap (λ o. write_part fd buf (o % block_size) len (opened fd k)) here))
              (write_part-Writes m fd bound small pos buf (opened fd k) here (omega (arith, inside))
                r len apart refl fits)
      ]

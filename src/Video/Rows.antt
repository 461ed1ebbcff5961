-- ===== src/Video/Rows.antt =====
-- The loops of kernel/src/video.c over the rows of the screen.
use mathlib.Core.Path.{subst}
use sebopesyslab.Base.{
  ℕ, zero, suc, ◌+◌, ◌*◌, ◌<◌, ◌≤◌, ◌≡◌, ◌⊎◌, inl, inr, refl, sym, ap, ◌∙◌, arith, Bool, ◌&&◌, ltb,
  leb, if◌then◌else◌, Bool-cases,
}
use sebopesyslab.FileSystem.{Bytes}
use sebopesyslab.FileSystem.Copying.{copy_inside, copy_before, copy_behind}
use sebopesyslab.Video.{vwidth, copy_words, assign, unmark, copy_row, copy_rows}

pub unmark_marks :
    (n x : ℕ) (f : Bytes) (r : ℕ) → unmark n x f r ≡ (if leb x r && ltb r (x + n) then 0 else f r)
unfolding unmark
unmark_marks zero x f r = ground arith
unmark_marks (suc n) x f r = unmark_marks n (x + 1) (assign f x 0) r ∙ ground arith

module _ (chosen : ℕ → Bool) (from : Bytes) (start : ℕ → ℕ) where
  abbrev one_row : ℕ → Bytes → Bytes
  one_row = copy_row chosen from start

  one_row_other :
      (x r y : ℕ) (to : Bytes)
      → y < vwidth
      → (r < x) ⊎ (x < r)
      → one_row x to (vwidth * r + y) ≡ to (vwidth * r + y)
  one_row_other x r y to h o = elim (Bool-cases (chosen x)) [
    | inl c ↦
        ap (λ z. (if z then copy_words to (vwidth * x) from (start x) 80 else to) (vwidth * r + y))
          c
        ∙ elim o [
          | inl b ↦
              copy_before (4 * 80) to (vwidth * x) from (start x) (vwidth * r + y) (omega arith)
          | inr b ↦
              copy_behind (4 * 80) to (vwidth * x) from (start x) (vwidth * r + y) (omega arith)
        ]
    | inr c ↦
        ap (λ z. (if z then copy_words to (vwidth * x) from (start x) 80 else to) (vwidth * r + y))
          c
  ]

  one_row_here :
      (r y : ℕ) (to : Bytes)
      → y < vwidth
      → one_row r to (vwidth * r + y)
        ≡ (if chosen r then from (start r + y) else to (vwidth * r + y))
  one_row_here r y to h = elim (Bool-cases (chosen r)) [
    | inl c ↦
        subst
          (λ z.
            (if z then copy_words to (vwidth * r) from (start r) 80 else to) (vwidth * r + y)
            ≡ (if z then from (start r + y) else to (vwidth * r + y)))
          (sym c)
          (copy_inside (4 * 80) to (vwidth * r) from (start r) (vwidth * r + y) (omega arith)
              (omega arith)
            ∙ ap (λ d. from (start r + d)) (omega arith))
    | inr c ↦
        subst
          (λ z.
            (if z then copy_words to (vwidth * r) from (start r) 80 else to) (vwidth * r + y)
            ≡ (if z then from (start r + y) else to (vwidth * r + y)))
          (sym c) refl
  ]

  -- The rows behind the loop's are left alone.
  rows_above :
      (n x r y : ℕ) (to : Bytes)
      → y < vwidth
      → r < x
      → copy_rows chosen from start n x to (vwidth * r + y) ≡ to (vwidth * r + y)
  unfolding copy_rows
  rows_above zero x r y to h b = refl
  rows_above (suc n) x r y to h b =
      rows_above n (x + 1) r y (one_row x to) h (omega arith) ∙ one_row_other x r y to h (inl b)

  pub rows_here :
      (n x r y : ℕ) (to : Bytes)
      → y < vwidth
      → x ≤ r
      → r < x + n
      → copy_rows chosen from start n x to (vwidth * r + y)
        ≡ (if chosen r then from (start r + y) else to (vwidth * r + y))
  unfolding copy_rows
  rows_here zero x r y to h lo hi = absurd (omega arith)
  rows_here (suc n) x r y to h lo hi = elim (Bool-cases (ltb x r)) [
    | inl b ↦
        rows_here n (x + 1) r y (one_row x to) h (ground (arith, b)) (omega arith)
        ∙ ap (λ z. if chosen r then from (start r + y) else z)
            (one_row_other x r y to h (inr (ground (arith, b))))
    | inr b ↦
        let here : x ≡ r = ground (arith, b) in
        subst
          (λ z.
            copy_rows chosen from start n (x + 1) (one_row x to) (vwidth * z + y)
            ≡ (if chosen z then from (start z + y) else to (vwidth * z + y)))
          here (rows_above n (x + 1) x y (one_row x to) h (omega arith) ∙ one_row_here x y to h)
  ]

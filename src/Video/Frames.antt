-- ===== src/Video/Frames.antt =====
-- Frames on the screen of kernel/src/video.c: the cache is reset, pixels are set, and it is flushed.
use sebopesyslab.Base.{
  ℕ, ◌+◌, ◌*◌, ◌%◌, ◌<◌, ◌==◌, ◌≡◌, inl, inr, refl, ap, ◌∙◌, arith, Bool, true, false, ◌&&◌, ◌||◌,
  ltb, if◌then◌else◌, List, [], ◌∷◌, Bool-cases,
}
use sebopesyslab.FileSystem.Copying.{copy_inside}
use sebopesyslab.Video.{
  Video, vwidth, vheight, vempty, copy_words, assign, init_vcache, is_set, set_pixel_at,
  only_before, next_stamp, clear_vram, sys_flush,
}
use sebopesyslab.Video.Rows.{unmark_marks, rows_here}

-- A pixel to set
pub record Pixel : Type 0 where
  pub row : ℕ
  pub col : ℕ
  pub color : ℕ

abbrev pub draw : List Pixel → Video → Video
draw [] v = v
draw (p ∷ ps) v = draw ps (set_pixel_at p.row p.col p.color v)

abbrev pub on_screen : Pixel → Bool
on_screen p = ltb p.row vheight && ltb p.col vwidth

-- The colour that the pixels leave at a place whose colour was `old`: that of the last one there.
abbrev pub painted : List Pixel → (r c old : ℕ) → ℕ
painted [] r c old = old
painted (p ∷ ps) r c old =
    painted ps r c (if (p.row == r) && (p.col == c) then p.color % 256 else old)

-- Whether one of the pixels is in row `r` of the screen
abbrev pub touches : List Pixel → ℕ → Bool
touches [] r = false
touches (p ∷ ps) r = ((p.row == r) && on_screen p) || touches ps r

set_pixel_at-inside :
    (p : Pixel) (v : Video)
    → on_screen p ≡ true
    → set_pixel_at p.row p.col p.color v ≡ record v {
      vdirty = assign v.vdirty p.row 1;
      vcdirty = assign v.vcdirty p.row 1;
      vcache = assign v.vcache (vwidth * p.row + p.col) (p.color % 256);
    }
set_pixel_at-inside p v h = ground (arith, h)

set_pixel_at-outside :
    (p : Pixel) (v : Video) → on_screen p ≡ false → set_pixel_at p.row p.col p.color v ≡ v
set_pixel_at-outside p v h = ground (arith, h)

set_pixel_at-vram : (x y color : ℕ) (v : Video) → (set_pixel_at x y color v).vram ≡ v.vram
set_pixel_at-vram x y color v = ground arith

set_pixel_at-vcache :
    (p : Pixel) (v : Video) (r c : ℕ)
    → r < vheight
    → c < vwidth
    → (set_pixel_at p.row p.col p.color v).vcache (vwidth * r + c)
      ≡ (if (p.row == r) && (p.col == c) then p.color % 256 else v.vcache (vwidth * r + c))
set_pixel_at-vcache p v r c hr hc = elim (Bool-cases (on_screen p)) [
  | inl y ↦ ap (λ z. z.vcache (vwidth * r + c)) (set_pixel_at-inside p v y) ∙ ground (arith, y)
  | inr o ↦ ap (λ z. z.vcache (vwidth * r + c)) (set_pixel_at-outside p v o) ∙ ground (arith, o)
]

set_pixel_at-vdirty :
    (p : Pixel) (v : Video) (r : ℕ)
    → is_set ((set_pixel_at p.row p.col p.color v).vdirty r)
      ≡ (((p.row == r) && on_screen p) || is_set (v.vdirty r))
set_pixel_at-vdirty p v r = elim (Bool-cases (on_screen p)) [
  | inl y ↦ ap (λ z. is_set (z.vdirty r)) (set_pixel_at-inside p v y) ∙ ground (arith, y)
  | inr o ↦ ap (λ z. is_set (z.vdirty r)) (set_pixel_at-outside p v o) ∙ ground (arith, o)
]

draw-vcache :
    (ps : List Pixel) (v : Video) (r c : ℕ)
    → r < vheight
    → c < vwidth
    → (draw ps v).vcache (vwidth * r + c) ≡ painted ps r c (v.vcache (vwidth * r + c))
draw-vcache [] v r c hr hc = refl
draw-vcache (p ∷ ps) v r c hr hc =
    draw-vcache ps (set_pixel_at p.row p.col p.color v) r c hr hc
    ∙ ap (painted ps r c) (set_pixel_at-vcache p v r c hr hc)

draw-vdirty :
    (ps : List Pixel) (v : Video) (r : ℕ)
    → is_set ((draw ps v).vdirty r) ≡ (touches ps r || is_set (v.vdirty r))
draw-vdirty [] v r = refl
draw-vdirty (p ∷ ps) v r =
    draw-vdirty ps (set_pixel_at p.row p.col p.color v) r
    ∙ ground (arith, set_pixel_at-vdirty p v r)

-- The drawing of a row leaves the screen and the stamp alone; a row that is not drawn keeps its mark.
draw-vram : (ps : List Pixel) (v : Video) → (draw ps v).vram ≡ v.vram
draw-vram [] v = refl
draw-vram (p ∷ ps) v =
    draw-vram ps (set_pixel_at p.row p.col p.color v) ∙ set_pixel_at-vram p.row p.col p.color v

draw-stamp : (ps : List Pixel) (v : Video) → (draw ps v).stamp ≡ v.stamp
draw-stamp [] v = refl
draw-stamp (p ∷ ps) v = draw-stamp ps (set_pixel_at p.row p.col p.color v) ∙ ground arith

set_pixel_at-vcdirty :
    (p : Pixel) (v : Video) (r : ℕ)
    → ((p.row == r) && on_screen p) ≡ false
    → (set_pixel_at p.row p.col p.color v).vcdirty r ≡ v.vcdirty r
set_pixel_at-vcdirty p v r n = elim (Bool-cases (on_screen p)) [
  | inl y ↦ ap (λ z. z.vcdirty r) (set_pixel_at-inside p v y) ∙ ground (arith, y, n)
  | inr o ↦ ap (λ z. z.vcdirty r) (set_pixel_at-outside p v o)
]

draw-vcdirty :
    (ps : List Pixel) (v : Video) (r : ℕ)
    → touches ps r ≡ false
    → (draw ps v).vcdirty r ≡ v.vcdirty r
draw-vcdirty [] v r n = refl
draw-vcdirty (p ∷ ps) v r n =
    draw-vcdirty ps (set_pixel_at p.row p.col p.color v) r (ground (arith, n))
    ∙ set_pixel_at-vcdirty p v r (ground (arith, n))

-- What a flush leaves on the screen
sys_flush_pixel :
    (v : Video) (r c : ℕ)
    → r < vheight
    → c < vwidth
    → (sys_flush v).vram (vwidth * r + c) ≡ (
        if is_set (v.vdirty r)
        then v.vcache (vwidth * r + c)
        else if is_set (v.vcdirty r)
        then 0
        else v.vram (vwidth * r + c))
sys_flush_pixel v r c hr hc =
    rows_here (λ x. is_set (v.vdirty x)) v.vcache (λ x. vwidth * x) vheight 0 r c
      (clear_vram v).vram hc (omega arith) (omega arith)
    ∙ ap (λ z. if is_set (v.vdirty r) then v.vcache (vwidth * r + c) else z)
        (rows_here (only_before v) vempty (λ _. 0) vheight 0 r c v.vram hc (omega arith)
          (omega arith))
    ∙ ground arith

-- One frame: clearStage and drawStage of game/include/stage.h, with the calls of sys_set_pixel between
abbrev pub show_frame : List Pixel → Video → Video
show_frame ps v = sys_flush (draw ps (init_vcache v))

module _ (ps : List Pixel) (v : Video) (r c : ℕ) (hr : r < vheight) (hc : c < vwidth) where
  frame-vdirty : is_set ((draw ps (init_vcache v)).vdirty r) ≡ touches ps r
  frame-vdirty =
      draw-vdirty ps (init_vcache v) r ∙ ground (arith, unmark_marks vheight 0 v.vdirty r)

  frame-vcache : (draw ps (init_vcache v)).vcache (vwidth * r + c) ≡ painted ps r c 0
  frame-vcache =
      draw-vcache ps (init_vcache v) r c hr hc
      ∙ ap (painted ps r c)
          (copy_inside 64000 v.vcache 0 vempty 0 (vwidth * r + c) (omega arith) (omega arith))

  -- After a frame (the cache is reset, any list of pixels is set, and it is flushed), each
  -- place of a row that a pixel of the frame touched shows the last color set there, or 0; a
  -- place of another row shows 0 where the row was marked as drawn before, and what it showed
  -- else.
  pub frame_pixel : (show_frame ps v).vram (vwidth * r + c) ≡ (
      if touches ps r
      then painted ps r c 0
      else if is_set (v.vcdirty r)
      then 0
      else v.vram (vwidth * r + c))
  frame_pixel = elim (Bool-cases (touches ps r)) [
    | inl t ↦
        let marked : is_set ((draw ps (init_vcache v)).vdirty r) ≡ true = frame-vdirty ∙ t in
        sys_flush_pixel (draw ps (init_vcache v)) r c hr hc ∙ rw (marked, t) frame-vcache
    | inr t ↦
        let unmarked : is_set ((draw ps (init_vcache v)).vdirty r) ≡ false = frame-vdirty ∙ t in
        sys_flush_pixel (draw ps (init_vcache v)) r c hr hc
        ∙ rw
            (
              unmarked,
              t,
              draw-vcdirty ps (init_vcache v) r t,
              ap (λ f. f (vwidth * r + c)) (draw-vram ps (init_vcache v)),
            )
            refl
  ]

-- The marks of the rows that were drawn are dropped by every thirtieth flush.
frame-vcdirty :
    (ps : List Pixel) (v : Video) (r : ℕ)
    → v.stamp ≡ 29
    → r < vheight
    → (show_frame ps v).vcdirty r ≡ 0
frame-vcdirty ps v r s h =
    let last : next_stamp (draw ps (init_vcache v)).stamp ≡ 0 =
      ap next_stamp (draw-stamp ps (init_vcache v) ∙ s) in
    ap
      (λ n.
        (if n == 0
            then copy_words (draw ps (init_vcache v)).vcdirty 0 vempty 0 50
            else (draw ps (init_vcache v)).vcdirty)
          r)
      last
    ∙ copy_inside 200 (draw ps (init_vcache v)).vcdirty 0 vempty 0 r (omega arith) (omega arith)

module _ (ps qs : List Pixel) (v : Video) (r c : ℕ) (hr : r < vheight) (hc : c < vwidth) where
  -- When a frame ends with the thirtieth flush since the stamp was 0, a row that it touched and
  -- that the next frame does not touch keeps the colors of the earlier frame on the screen.
  pub frame_leaves :
      v.stamp ≡ 29
      → touches ps r ≡ true
      → touches qs r ≡ false
      → (show_frame qs (show_frame ps v)).vram (vwidth * r + c) ≡ painted ps r c 0
  frame_leaves s t n =
      frame_pixel qs (show_frame ps v) r c hr hc
      ∙ rw (n, frame-vcdirty ps v r s hr) (frame_pixel ps v r c hr hc ∙ rw t refl)

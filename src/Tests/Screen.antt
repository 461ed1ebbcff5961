-- ===== src/Tests/Screen.antt =====
-- The theorems on frames at two small drawings.
use sebopesyslab.Base.{◌+◌, ◌*◌, ◌≡◌, refl, arith, List, [], ◌∷◌}
use sebopesyslab.Video.{Video, vwidth}
use sebopesyslab.Video.Frames.{Pixel, show_frame, frame_pixel, frame_leaves}

abbrev late : Video
late = record { vram = λ a. 5; vcache = λ a. 6; vdirty = λ a. 0; vcdirty = λ a. 0; stamp = 29 }

abbrev two_pixels : List Pixel
two_pixels =
    record { row = 3; col = 7; color = 300 } ∷ record { row = 0xffff_ffff; col = 7; color = 1 } ∷ []

abbrev other_row : List Pixel
other_row = record { row = 4; col = 7; color = 9 } ∷ []

frame_pixel_example : (show_frame two_pixels late).vram (vwidth * 3 + 7) ≡ 44
frame_pixel_example = frame_pixel two_pixels late 3 7 (omega arith) (omega arith)

frame_leaves_example :
    (show_frame other_row (show_frame two_pixels late)).vram (vwidth * 3 + 7) ≡ 44
frame_leaves_example =
    frame_leaves two_pixels other_row late 3 7 (omega arith) (omega arith) refl refl refl

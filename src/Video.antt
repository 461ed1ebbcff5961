-- ===== src/Video.antt =====
-- The frame buffer of kernel/src/video.c, and the call SYS_FLUSH_VCACHE of kernel/src/do_syscall.c. An
-- array of bytes is a function of the offset in it; VEMPTY, which nothing writes, is `vempty`.
pub mod Rows
pub mod Frames
use sebopesyslab.Base.{
  ℕ, zero, suc, ◌+◌, ◌*◌, ◌/◌, ◌%◌, ◌==◌, Bool, ◌&&◌, ◌||◌, not, leb, if◌then◌else◌, is_negative,
}
use sebopesyslab.FileSystem.{Bytes, copy}

abbrev pub vwidth : ℕ
vwidth = 320

abbrev pub vheight : ℕ
vheight = 200

abbrev pub vsize : ℕ
vsize = vwidth * vheight

-- Flags are 0 or 1.
pub record Video : Type 0 where
  pub vram : Bytes
  pub vcache : Bytes
  pub vdirty : Bytes
  pub vcdirty : Bytes
  pub stamp : ℕ

abbrev pub vempty : Bytes
vempty _ = 0

-- memcpy, which counts words of four bytes
abbrev pub copy_words : Bytes → (to : ℕ) → Bytes → (from len : ℕ) → Bytes
copy_words f to g from len = copy (4 * len) f to g from

abbrev pub assign : Bytes → (i b : ℕ) → Bytes
assign f i b a = if a == i then b else f a

-- `for(x=0; x<VHEIGHT; x++) VDIRTY[x] = 0;`, with `n` rows left
unfoldable pub unmark : (n x : ℕ) → Bytes → Bytes
unmark zero x f = f
unmark (suc n) x f = unmark n (x + 1) (assign f x 0)

abbrev pub init_vcache : Video → Video
init_vcache v = record v {
  vcache = copy_words v.vcache 0 vempty 0 (vsize / 4);
  vdirty = unmark vheight 0 v.vdirty;
}

abbrev pub refresh_vcache : Video → Video
refresh_vcache v = record v { vdirty = unmark vheight 0 v.vdirty }

-- The body of the loops of flushVCache and clearVRAM: row `x` is written where it is chosen.
abbrev pub copy_row : (ℕ → Bool) → (from : Bytes) → (start : ℕ → ℕ) → (x : ℕ) → Bytes → Bytes
copy_row chosen from start x to =
    if chosen x then copy_words to (vwidth * x) from (start x) (vwidth / 4) else to

-- The loops of flushVCache and clearVRAM, with `n` rows left: row `x` is written from the offset `start x`
-- of `from` on.
unfoldable pub copy_rows : (ℕ → Bool) → (from : Bytes) → (start : ℕ → ℕ) → (n x : ℕ) → Bytes → Bytes
copy_rows chosen from start zero x to = to
copy_rows chosen from start (suc n) x to =
    copy_rows chosen from start n (x + 1) (copy_row chosen from start x to)

abbrev pub is_set : ℕ → Bool
is_set b = not (b == 0)

abbrev pub flush_vcache : Video → Video
flush_vcache v = record v {
  vram = copy_rows (λ x. is_set (v.vdirty x)) v.vcache (λ x. vwidth * x) vheight 0 v.vram;
}

-- `x` and `y` in 32 bits, and the colour as a uint8_t
abbrev pub set_pixel_at : (x y color : ℕ) → Video → Video
set_pixel_at x y color v =
    if ((is_negative x || leb vheight x) || is_negative y) || leb vwidth y then v else record v {
      vdirty = assign v.vdirty x 1;
      vcdirty = assign v.vcdirty x 1;
      vcache = assign v.vcache (vwidth * x + y) (color % 256);
    }

-- `VCDIRTY[x] & ~VDIRTY[x]`
abbrev pub only_before : Video → ℕ → Bool
only_before v x = is_set (v.vcdirty x) && not (is_set (v.vdirty x))

-- `stamp++; if(stamp==30) stamp=0;`
abbrev pub next_stamp : ℕ → ℕ
next_stamp s = if (s + 1) % 256 == 30 then 0 else (s + 1) % 256

abbrev pub clear_vram : Video → Video
clear_vram v = record v {
  vram = copy_rows (only_before v) vempty (λ _. 0) vheight 0 v.vram;
  stamp = next_stamp v.stamp;
  vcdirty =
      if next_stamp v.stamp == 0 then copy_words v.vcdirty 0 vempty 0 (vheight / 4) else v.vcdirty;
}

-- SYS_FLUSH_VCACHE
abbrev pub sys_flush : Video → Video
sys_flush v = flush_vcache (clear_vram v)

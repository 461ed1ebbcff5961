-- ===== src/Descriptors/Segments.antt =====
-- The segments are flat, and the TSS descriptor describes the TSS.
use sebopesyslab.Base.{ℕ, ◌+◌, ◌-◌, ◌*◌, ◌^◌, ◌<◌, ◌≡◌, refl, arith, ◌==◌, if◌then◌else◌}
use sebopesyslab.Descriptors.{SegDesc, init_segment, tss_size}

-- What the processor reads: the base, and the last byte that may be accessed.
abbrev pub segment_base : SegDesc → ℕ
segment_base s = s.base_31_24 * 2 ^ 24 + s.base_23_16 * 2 ^ 16 + s.base_15_0

abbrev pub segment_limit : SegDesc → ℕ
segment_limit s =
    let limit = s.limit_19_16 * 2 ^ 16 + s.limit_15_0 in
    if s.granularity == 1 then limit * 2 ^ 12 + (2 ^ 12 - 1) else limit

pub record Flat (s : SegDesc) (pl seg_type : ℕ) : Type 0 where
  pub base : segment_base s ≡ 0
  pub limit : segment_limit s ≡ 2 ^ 32 - 1
  pub level : s.privilege_level ≡ pl
  pub kind : s.seg_type ≡ seg_type
  pub there : s.present ≡ 1

-- The six descriptors.
pub record Segments (tss : ℕ) : Type 0 where
  pub kernel_code : Flat (init_segment tss 1) 0 10
  pub kernel_data : Flat (init_segment tss 2) 0 2
  pub user_code : Flat (init_segment tss 3) 3 10
  pub user_data : Flat (init_segment tss 4) 3 2
  pub tss_base : segment_base (init_segment tss 5) ≡ tss
  pub tss_limit : segment_limit (init_segment tss 5) + 1 ≡ tss_size
  pub unused : (init_segment tss 0).present ≡ 0

pub init_segment-Segments : (tss : ℕ) → tss < 2 ^ 32 → Segments tss
unfolding init_segment
init_segment-Segments tss b = record {
  kernel_code = record { base = refl; limit = refl; level = refl; kind = refl; there = refl };
  kernel_data = record { base = refl; limit = refl; level = refl; kind = refl; there = refl };
  user_code = record { base = refl; limit = refl; level = refl; kind = refl; there = refl };
  user_data = record { base = refl; limit = refl; level = refl; kind = refl; there = refl };
  tss_base = omega (arith, b);
  tss_limit = refl;
  unused = refl;
}

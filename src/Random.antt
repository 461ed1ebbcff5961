-- ===== src/Random.antt =====
-- UKISS of cshell/src/rnd.c; app/src/rnd.c and game/src/rnd.c are copies of it.
use sebopesyslab.Base.{
  ℕ, zero, suc, ◌+◌, ◌*◌, ◌%◌, ◌^◌, ◌<◌, ◌≡◌, arith, u32, bit_xor, ◌<<<◌, ◌>>>◌,
}

-- `x`, `y`, `z` and `c`
pub record Seed : Type 0 where
  pub x : ℕ
  pub y : ℕ
  pub z : ℕ
  pub c : ℕ

abbrev pub first_seed : Seed
first_seed = record { x = 123456789; y = 362436000; z = 521288629; c = 7654321 }

-- A
abbrev pub multiplier : ℕ
multiplier = 698769069

-- The three shifts of `y`.
abbrev pub xorshift : ℕ → ℕ
xorshift y =
    let y1 = bit_xor y (u32 (y <<< 13)) in
    let y2 = bit_xor y1 (y1 >>> 17) in bit_xor y2 (u32 (y2 <<< 5))

-- `t`, an unsigned long long
abbrev pub product : Seed → ℕ
product s = (multiplier * s.z + s.c) % 2 ^ 64

-- The seed that a call leaves, and the number that it returns.
pub next_seed : Seed → Seed
next_seed s = record {
  x = u32 (69069 * s.x + 12345);
  y = xorshift s.y;
  z = u32 (product s);
  c = u32 (product s >>> 32);
}

abbrev pub output : Seed → ℕ
output s = u32 (s.x + s.y + s.z)

pub ukiss : Seed → ℕ × Seed
ukiss s = (output (next_seed s), next_seed s)

-- The carry is below the multiplier.
pub record IsSeed (s : Seed) : Type 0 where
  pub is_word : s.z < 2 ^ 32
  pub carry : s.c < multiplier

next_seed-IsSeed : (s : Seed) → IsSeed s → IsSeed (next_seed s)
unfolding next_seed
next_seed-IsSeed s h = record { is_word = omega arith; carry = omega (arith, h.is_word, h.carry) }

-- After `n` calls
abbrev pub after : ℕ → Seed → Seed
after zero s = s
after (suc n) s = after n (next_seed s)

-- The multiplication with carry of the state after `n` calls has no overflow.
pub record Exact (s : Seed) : Type 0 where
  pub fits : multiplier * s.z + s.c < 2 ^ 64
  pub split : (next_seed s).c * 2 ^ 32 + (next_seed s).z ≡ multiplier * s.z + s.c
  pub valid : IsSeed (next_seed s)

IsSeed→Exact : (s : Seed) → IsSeed s → Exact s
unfolding next_seed
IsSeed→Exact s h = record {
  fits = omega (arith, h.is_word, h.carry);
  split = omega (arith, h.is_word, h.carry);
  valid = next_seed-IsSeed s h;
}

-- From a seed with z below 2^32 and c below the multiplier, after any number of calls of UKISS
-- the product A*z + c of the next call fits in 64 bits, the new c and z are its high and low
-- words, and the new seed is again such a seed.
pub after-Exact : (n : ℕ) (s : Seed) → IsSeed s → Exact (after n s)
after-Exact zero s h = IsSeed→Exact s h
after-Exact (suc n) s h = after-Exact n (next_seed s) (next_seed-IsSeed s h)

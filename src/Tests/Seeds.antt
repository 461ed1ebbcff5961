-- ===== src/Tests/Seeds.antt =====
-- The theorem on the random number generator at its first seed.
use sebopesyslab.Base.{arith}
use sebopesyslab.Random.{first_seed, after, Exact, after-Exact}

after-Exact_example : Exact (after 3 first_seed)
after-Exact_example =
    after-Exact 3 first_seed (record { is_word = omega arith; carry = omega arith })

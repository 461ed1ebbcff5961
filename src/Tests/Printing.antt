-- ===== src/Tests/Printing.antt =====
-- The theorems on formatted output at concrete numbers, and a line of output.
use sebopesyslab.Base.{ℕ, ◌≤◌, ◌≡◌, refl, List, [], ◌∷◌, length, arith, ◌==◌, if◌then◌else◌}
use sebopesyslab.Printk.{digits, max_digits, vfprintf}
use sebopesyslab.Printk.Numbers.{
  read_int, read_digits, vfprintf_decimal, vfprintf_hex, length-digits_fit,
}

-- The pattern of -1234 and then 48879.
abbrev some_args : ℕ → ℕ
some_args i = if i == 0 then 4294966062 else 48879

abbrev no_text : ℕ → List ℕ
no_text a = []

-- "%d:%x" prints "-1234:beef".
vfprintf_test :
    vfprintf no_text (37 ∷ 100 ∷ 58 ∷ 37 ∷ 120 ∷ []) some_args
    ≡ 45 ∷ 49 ∷ 50 ∷ 51 ∷ 52 ∷ 58 ∷ 98 ∷ 101 ∷ 101 ∷ 102 ∷ []
unfolding digits
vfprintf_test = refl

vfprintf_decimal_example : read_int (vfprintf no_text (37 ∷ 100 ∷ []) some_args) ≡ 4294966062
vfprintf_decimal_example = vfprintf_decimal no_text some_args (omega arith)

vfprintf_hex_example : read_digits 16 0 (vfprintf no_text (37 ∷ 120 ∷ []) some_args) ≡ 4294966062
vfprintf_hex_example = vfprintf_hex no_text some_args (omega arith)

length-digits_fit_example :
    (length (digits max_digits 10 4294967295) ≤ 10) × (length (digits max_digits 16 4294967295) ≤ 8)
length-digits_fit_example = length-digits_fit 4294967295 (omega arith)

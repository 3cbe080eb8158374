-- ===== src/Libc/Scan.antt =====
-- Reading numbers.
use project_and_training_3_n.Base.{
  ℕ, ◌^◌, ◌<◌, ◌≤◌, ◌≡◌, ◌≢◌, refl, true, some, [], ◌∷◌, Bytes, All, arith,
}
use project_and_training_3_n.Libc.{is_digit, digits_value, scan_uint}

-- A text of digits, at least one, that writes the number `n`.
pub record IsNumber (s : Bytes) (n : ℕ) : Type 0 where
  pub nonempty : s ≢ []
  pub digits : All (λ c. is_digit c ≡ true) s
  pub value : digits_value 0 s ≡ n

pub is_digit_bounds : (c : ℕ) → is_digit c ≡ true → (48 ≤ c) × (c ≤ 57)
unfolding is_digit
is_digit_bounds c d = ground arith

-- A number that fits an `unsigned int` is read as it is written.
pub scan_uint-IsNumber : (s : Bytes) {n : ℕ} → IsNumber s n → n < 2 ^ 32 → scan_uint s ≡ some n
unfolding scan_uint
scan_uint-IsNumber [] v h = absurd (v.nonempty refl)
scan_uint-IsNumber (c ∷ s) v h = ground (arith, is_digit_bounds c v.digits.0, v.value)

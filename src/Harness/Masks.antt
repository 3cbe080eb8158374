-- ===== src/Harness/Masks.antt =====
-- The bit mask of `expect_multicast`.
use project_and_training_3_n.Base.{
  ℕ, ◌+◌, ◌-◌, ◌^◌, ◌<◌, ◌≡◌, ◌≢◌, ◌∙◌, List, [], ◌∷◌, bit, bit_and, bit_and_power, bit-add_self,
  bit-add_other, bit-zero, ◌==◌, false, All, arith,
}
use native.Mathlib.Nat.{one-le-pow}

-- The mask with the bits of some interfaces, each of which counts from 1.
abbrev pub mask_of : List ℕ → ℕ
mask_of [] = 0
mask_of (t ∷ ts) = mask_of ts + 2 ^ (t - 1)

-- No number stands twice.
abbrev pub IsDistinct : List ℕ → Type 0
IsDistinct [] = Unit
IsDistinct (t ∷ ts) = All (λ u. u ≢ t) ts × IsDistinct ts

abbrev pub IsPort : ℕ → Type 0
IsPort t = (0 < t) × (t < 32)

pub bit-mask_of_missing :
    (t : ℕ) (ts : List ℕ)
    → IsPort t
    → All IsPort ts
    → IsDistinct ts
    → All (λ u. u ≢ t) ts
    → bit (t - 1) (mask_of ts) ≡ 0
bit-mask_of_missing t [] p ps d m = bit-zero (t - 1)
bit-mask_of_missing t (u ∷ ts) p ps d m =
    bit-add_other (t - 1) (u - 1) (mask_of ts) (λ e. m.0 (omega (arith, e, p, ps.0)))
      (bit-mask_of_missing u ts ps.0 ps.1 d.1 d.0)
    ∙ bit-mask_of_missing t ts p ps.1 d.1 m.1

-- The bit of an interface that is expected.
pub bit-mask_of :
    (t : ℕ) (ts : List ℕ)
    → All IsPort (t ∷ ts)
    → IsDistinct (t ∷ ts)
    → (bit_and (mask_of (t ∷ ts)) (2 ^ (t - 1)) == 0) ≡ false
bit-mask_of t ts p d =
    let one : bit (t - 1) (mask_of (t ∷ ts)) ≡ 1 =
      bit-add_self (t - 1) (mask_of ts) (bit-mask_of_missing t ts p.0 p.1 d.1 d.0) in
    rw (bit_and_power (t - 1) (mask_of (t ∷ ts)), one) (ground (arith, one-le-pow (t - 1) 2))

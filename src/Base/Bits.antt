-- ===== src/Base/Bits.antt =====
-- `&` with a mask of low ones, as a remainder, and with a netmask.
use Prim.Native.Nat.{
  ℕ, zero, suc, ◌+◌, ◌-◌, ◌*◌, ◌/◌, ◌%◌, ◌^◌, ◌≤◌, ◌<◌, min, bit_and, digits, bit_and-bitwise,
}
use mathlib.Core.Path.{◌≡◌, refl, ap, ◌∙◌, sym}
use mathlib.Core.Logic.{◌≢◌}
use native.Mathlib.Nat.{pow-suc, one-le-pow, le_refl, mod-eq_of_lt, add-mul-mod_self_left}
use native.Mathlib.Omega.{arith}

-- The remainder by twice a number, from that of the half.
mod-double : (p a : ℕ) → 0 < p → a / 2 % p * 2 + a % 2 ≡ a % (2 * p)
mod-double p a pos =
    let low = a / 2 % p * 2 + a % 2 in
    let small : low < 2 * p = omega arith in
    let parts : low + 2 * p * (a / 2 / p) ≡ a = omega arith in
    rw (← mod-eq_of_lt small)
      (sym (add-mul-mod_self_left low (2 * p) (a / 2 / p)) ∙ ap (λ (t : ℕ). t % (2 * p)) parts)

-- With digits enough for all of `a`, a mask of `k` ones keeps the lowest `k`.
mask-digits : (n a k : ℕ) → a ≤ n → digits (λ _. 0) min n a (2 ^ k - 1) ≡ a % 2 ^ k
mask-digits zero a k h = ground (arith, one-le-pow k 2)
mask-digits (suc n) zero k h = ground (arith, one-le-pow k 2)
mask-digits (suc n) (suc a) zero h = omega (arith, mask-digits n (suc a / 2) zero (omega arith))
mask-digits (suc n) (suc a) (suc k) h =
    let half : (2 ^ suc k - 1) / 2 ≡ 2 ^ k - 1 = omega (arith, pow-suc 2 k, one-le-pow k 2) in
    let one : (2 ^ suc k - 1) % 2 ≡ 1 = omega (arith, pow-suc 2 k, one-le-pow k 2) in
    rw (half, one, mask-digits n (suc a / 2) k (omega arith))
      (ground (
        arith,
        pow-suc 2 k,
        one-le-pow k 2,
        mod-double (2 ^ k) (suc a) (omega (arith, one-le-pow k 2)),
      ))

-- `a & (2 ^ k - 1)`
bit_and_ones : (k a : ℕ) → bit_and a (2 ^ k - 1) ≡ a % 2 ^ k
bit_and_ones k a = bit_and-bitwise a (2 ^ k - 1) ∙ mask-digits a a k (le_refl a)

pub bit_and-4095 : (a : ℕ) → bit_and a 0x0fff ≡ a % 4096
bit_and-4095 a = bit_and_ones 12 a

pub bit_and-1 : (a : ℕ) → bit_and a 0x01 ≡ a % 2
bit_and-1 a = bit_and_ones 1 a

-- The bit number `i`, 0 or 1.
abbrev pub bit : ℕ → ℕ → ℕ
bit zero a = a % 2
bit (suc i) a = bit i (a / 2)

pub bit-zero : (i : ℕ) → bit i 0 ≡ 0
bit-zero zero = refl
bit-zero (suc i) = bit-zero i

power-digits : (n a i : ℕ) → a ≤ n → digits (λ _. 0) min n a (2 ^ i) ≡ bit i a * 2 ^ i
power-digits zero a i h = rw (let none : a ≡ 0 = omega arith in none, bit-zero i) (omega arith)
power-digits (suc n) zero i h = rw (bit-zero i) (omega arith)
power-digits (suc n) (suc a) zero h = omega (arith, mask-digits n (suc a / 2) zero (omega arith))
power-digits (suc n) (suc a) (suc i) h =
    let half : 2 ^ suc i / 2 ≡ 2 ^ i = omega (arith, pow-suc 2 i) in
    let even : 2 ^ suc i % 2 ≡ 0 = omega (arith, pow-suc 2 i) in
    rw (half, even, power-digits n (suc a / 2) i (omega arith)) (grind (arith, pow-suc 2 i))

-- `a & (1 << i)`
pub bit_and_power : (i a : ℕ) → bit_and a (2 ^ i) ≡ bit i a * 2 ^ i
bit_and_power i a = bit_and-bitwise a (2 ^ i) ∙ power-digits a a i (le_refl a)

-- Another power of two changes no bit but its own, if that was 0.
pub bit-add_self : (i a : ℕ) → bit i a ≡ 0 → bit i (a + 2 ^ i) ≡ 1
bit-add_self zero a h = omega arith
bit-add_self (suc i) a h =
    let half : (a + 2 ^ suc i) / 2 ≡ a / 2 + 2 ^ i = omega (arith, pow-suc 2 i) in
    rw half (bit-add_self i (a / 2) h)

pub bit-add_other : (i j a : ℕ) → i ≢ j → bit j a ≡ 0 → bit i (a + 2 ^ j) ≡ bit i a
bit-add_other zero zero a ne h = absurd (ne refl)
bit-add_other zero (suc j) a ne h = omega (arith, pow-suc 2 j)
bit-add_other (suc i) zero a ne h = ap (bit i) (omega arith)
bit-add_other (suc i) (suc j) a ne h =
    let half : (a + 2 ^ suc j) / 2 ≡ a / 2 + 2 ^ j = omega (arith, pow-suc 2 j) in
    rw half (bit-add_other i j (a / 2) (λ e. ne (ap suc e)) h)

-- A bit that is 1 is a power of two in the number, which can be taken away.
pub power-le : (j a : ℕ) → bit j a ≡ 1 → 2 ^ j ≤ a
power-le zero a one = omega arith
power-le (suc j) a one = omega (arith, pow-suc 2 j, power-le j (a / 2) one)

pub bit-sub_self : (j a : ℕ) → bit j a ≡ 1 → bit j (a - 2 ^ j) ≡ 0
bit-sub_self zero a one = omega arith
bit-sub_self (suc j) a one =
    let half : (a - 2 ^ suc j) / 2 ≡ a / 2 - 2 ^ j =
      omega (arith, pow-suc 2 j, power-le j (a / 2) one) in
    rw half (bit-sub_self j (a / 2) one)

pub bit-sub_other : (i j a : ℕ) → i ≢ j → bit j a ≡ 1 → bit i (a - 2 ^ j) ≡ bit i a
bit-sub_other i j a ne one =
    let back : a - 2 ^ j + 2 ^ j ≡ a = omega (arith, power-le j a one) in
    sym (bit-add_other i j (a - 2 ^ j) ne (bit-sub_self j a one)) ∙ ap (bit i) back

pub bit-two : (i a : ℕ) → bit i a < 2
bit-two zero a = omega arith
bit-two (suc i) a = bit-two i (a / 2)

even-digits : (n a b : ℕ) → a % 2 ≡ 0 → digits (λ _. 0) min n a b % 2 ≡ 0
even-digits zero a b even = refl
even-digits (suc n) zero b even = refl
even-digits (suc n) (suc a) b even = omega arith

-- A mask without the lowest bit leaves an even number.
pub bit_and-even : (a b : ℕ) → a % 2 ≡ 0 → bit_and a b % 2 ≡ 0
bit_and-even a b even = rw (bit_and-bitwise a b) (even-digits a a b even)

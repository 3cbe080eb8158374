-- ===== src/Harness/Multicast.antt =====
-- `expect_multicast` as a receiver: what a call of it has found.
use project_and_training_3_n.Base.{
  ℕ, suc, ◌-◌, ◌^◌, ◌≡◌, ◌≢◌, ◌⊎◌, inl, inr, refl, true, false, ◌++◌, Bytes, ◌==◌, leb, leb→le,
  Bool-cases, length, take-append_le, bit, bit_and, bit_and_power, bit-two, ok, arith,
}
use native.Mathlib.Nat.{one-le-pow}
use project_and_training_3_n.Harness.Expect.{
  ℤ, pos, negsuc, fits_frame, expect_frame, expect_multicast,
}
use project_and_training_3_n.Harness.Masks.{IsPort}
use project_and_training_3_n.Harness.Receive.{Receiver}
use project_and_training_3_n.Harness.Refinement.{IsLocal}

-- `expect_multicast` as `trecv` calls it, with the mask as its closure.
abbrev pub multicast : Bytes → ℤ → Receiver ℕ
multicast frame len all ifc msg msg_len = expect_multicast all ifc msg msg_len frame len

fits-local :
    (body behind frame : Bytes) (len : ℤ)
    → fits_frame (body ++ behind) (length body) frame len ≡ fits_frame body (length body) frame len
unfolding fits_frame
fits-local body behind frame (pos n) = elim (Bool-cases (length body == n)) [
  | inl e ↦ rw e (rw (take-append_le body behind n (ground arith)) refl)
  | inr e ↦ rw e refl
]
fits-local body behind frame (negsuc n) = elim (Bool-cases (leb (suc n) (length body))) [
  | inl e ↦ rw (e, take-append_le body behind (suc n) (leb→le (suc n) (length body) e)) refl
  | inr e ↦ rw e refl
]

expect_frame-local :
    (ifc : ℕ) (body behind frame : Bytes) (len : ℤ) (wanted : ℕ)
    → expect_frame ifc (body ++ behind) (length body) frame len wanted
      ≡ expect_frame ifc body (length body) frame len wanted
unfolding expect_frame
expect_frame-local ifc body behind frame len wanted = rw (fits-local body behind frame len) refl

pub multicast-IsLocal : (frame : Bytes) (len : ℤ) → IsLocal (multicast frame len)
unfolding expect_multicast
multicast-IsLocal frame len all ifc body behind =
    rw (expect_multicast, expect_frame-local ifc body behind frame len ifc) refl

-- A number with a mask's bit, as `&` finds it.
bit-test :
    (i a : ℕ)
    → ((bit_and a (2 ^ i) == 0) ≡ true → bit i a ≡ 0)
      × ((bit_and a (2 ^ i) == 0) ≡ false → bit i a ≡ 1)
bit-test i a = rw (bit_and_power i a) (
  (λ e. ground (arith, one-le-pow i 2, bit-two i a)),
  (λ e. ground (arith, one-le-pow i 2, bit-two i a)),
)

-- What a call that returns has found.
module _ (frame : Bytes) (len : ℤ) (ifc : ℕ) (msg : Bytes) (n all : ℕ) where
  pub record Got (ret all' : ℕ) : Type 0 where
    pub port : IsPort ifc
    pub open_bit : bit (ifc - 1) all ≡ 1
    pub fits : fits_frame msg n frame len ≡ true
    pub less : all' ≡ all - 2 ^ (ifc - 1)
    pub last : ret ≡ 0 → all' ≡ 0

  pub expect_multicast-cases :
      {ret all' : ℕ}
      → expect_multicast all ifc msg n frame len ≡ ok (ret, all')
      → ((ret ≢ 0) × (all' ≡ all)) ⊎ Got ret all'
  unfolding expect_multicast expect_frame
  expect_multicast-cases e = elim (Bool-cases (ifc == 0)) [
    | inl text ↦ inl (ground arith)
    | inr number ↦ elim (Bool-cases (leb 64 ifc)) [
      | inl high ↦ inl (ground arith)
      | inr low ↦ elim (Bool-cases (leb 32 ifc)) [
        | inl wide ↦ absurd (ground arith)
        | inr narrow ↦ elim (Bool-cases (bit_and all (2 ^ (ifc - 1)) == 0)) [
          | inl closed ↦ inl (ground arith)
          | inr opened ↦ elim (Bool-cases (fits_frame msg n frame len)) [
            | inr other ↦ inl (ground arith)
            | inl fits ↦ inr (record {
              port = ground arith;
              open_bit = (bit-test (ifc - 1) all).1 opened;
              fits = fits;
              less = ground arith;
              last = λ zero. ground arith;
            })
          ]
        ]
      ]
    ]
  ]

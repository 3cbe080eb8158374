-- ===== src/Harness/Masked.antt =====
-- `trecv` with `expect_frame` and `expect_multicast`: what a test program has seen when it gets 0.
use project_and_training_3_n.Base.{
  ℕ, zero, suc, ◌-◌, ◌^◌, ◌≤◌, ◌<◌, ◌≡◌, ◌≢◌, ◌⊎◌, inl, inr, refl, sym, ap, ◌∙◌, true, false, List,
  [], ◌∷◌, ◌++◌, Bytes, ◌==◌, if◌then◌else◌, Bool-cases, length, bit, bit_and, bit-sub_other,
  bit-zero, ok, err, All, arith, some, get_elem?,
}
use native.Mathlib.Nat.{one-le-pow}
use project_and_training_3_n.Wire.Delivery.{Message, types}
use project_and_training_3_n.Wire.Stream.{Result-cases}
use project_and_training_3_n.Harness.Expect.{ℤ, fits_frame, expect_frame, expect_multicast}
use project_and_training_3_n.Harness.Multicast.{multicast, Got, expect_multicast-cases}
use project_and_training_3_n.Harness.Masks.{mask_of, IsDistinct, IsPort, bit-mask_of}
use project_and_training_3_n.Harness.Receive.{Receiver}
use project_and_training_3_n.Harness.Refinement.{scan}

==-cases : (a b : ℕ) → (a ≡ b) ⊎ (a ≢ b)
==-cases a b = elim (Bool-cases (a == b)) [
  | inl e ↦ inl (ground arith)
  | inr e ↦ inr (ground arith)
]

ok_injective : {A : Type 0} {a b : A} → ok a ≡ ok b → a ≡ b
ok_injective e = cc

-- Either the receiver's answer ended the run, or it went on behind the message.
scan-step :
    {C : Type 0} (recv : Receiver C) (n : ℕ) (cls : C) (m : Message) (ms : List Message) {ret : ℕ}
    {cls' : C} {out : ℕ × C × List Message}
    → recv cls m.type m.body (length m.body) ≡ ok (ret, cls')
    → scan recv (suc n) cls (m ∷ ms) ≡ ok out
    → ((ret ≡ 0) × (out.1 ≡ cls'))
      ⊎ ((ret ≢ 0) × (scan recv (if ret == 2 then suc n else n) cls' ms ≡ ok out))
unfolding scan
scan-step recv n cls m ms {ret} r e = elim (Bool-cases (ret == 0)) [
  | inl found ↦
      inl (ground arith, sym (ap (λ o. o.1) (ok_injective (let f = rw (scan, r, found) at e in f))))
  | inr other ↦ inr (ground arith, let f = rw (scan, r, other) at e in f)
]

scan-found :
    {C : Type 0} (recv : Receiver C) (n : ℕ) (cls : C) (m : Message) (ms : List Message) {cls' : C}
    → recv cls m.type m.body (length m.body) ≡ ok (0, cls')
    → scan recv (suc n) cls (m ∷ ms) ≡ ok (0, cls', ms)
unfolding scan
scan-found recv n cls m ms r = rw (scan, r) refl

scan-next :
    {C : Type 0} (recv : Receiver C) (n : ℕ) (cls : C) (m : Message) (ms : List Message) {cls' : C}
    → recv cls m.type m.body (length m.body) ≡ ok (1, cls')
    → scan recv (suc n) cls (m ∷ ms) ≡ scan recv n cls' ms
unfolding scan
scan-next recv n cls m ms r = rw (scan, r) refl

-- One of the messages came from interface `i + 1` with the frame.
pub record Seen (frame : Bytes) (len : ℤ) (i : ℕ) (ms : List Message) : Type 0 where
  pub message : Message
  pub place : ℕ
  pub exists : get_elem? ms place ≡ some message
  pub type_is : message.type ≡ suc i
  pub fits : fits_frame message.body (length message.body) frame len ≡ true

module _ (frame : Bytes) (len : ℤ) where
  Seen-cons :
      (m : Message) (ms : List Message) (i : ℕ) → Seen frame len i ms → Seen frame len i (m ∷ ms)
  Seen-cons m ms i s = record {
    message = s.message;
    place = suc s.place;
    exists = s.exists;
    type_is = s.type_is;
    fits = s.fits;
  }

  Seen-step :
      (m : Message) (ms : List Message) (n : ℕ) {all ret c all' : ℕ} {rest : List Message}
      → ((ret ≢ 0) × (c ≡ all)) ⊎ Got frame len m.type m.body (length m.body) all ret c
      → ((ret ≡ 0) × (all' ≡ c))
        ⊎ ((ret ≢ 0)
            × (scan (multicast frame len) (if ret == 2 then suc n else n) c ms
                ≡ ok (0, all', rest)))
      → (scan (multicast frame len) (if ret == 2 then suc n else n) c ms ≡ ok (0, all', rest)
          → (all' ≡ 0) × ((i : ℕ) → bit i c ≡ 1 → Seen frame len i ms))
      → (all' ≡ 0) × ((i : ℕ) → bit i all ≡ 1 → Seen frame len i (m ∷ ms))
  Seen-step m ms n (inl (missed, same)) (inl (ended, _)) rec = absurd (missed ended)
  Seen-step m ms n (inl (missed, same)) (inr (_, next)) rec =
      let (none, seen) = rec next in
      (none, λ i one. Seen-cons m ms i (seen i (ap (bit i) same ∙ one)))
  Seen-step m ms n {all} {ret} {c} {all'} (inr got) way rec =
      let here : (i : ℕ) → m.type ≡ suc i → Seen frame len i (m ∷ ms) =
        λ i e. record { message = m; place = 0; exists = refl; type_is = e; fits = got.fits } in
      let kept : (i : ℕ) → i ≢ m.type - 1 → bit i all ≡ 1 → bit i c ≡ 1 = λ i other one.
        ap (bit i) got.less ∙ bit-sub_other i (m.type - 1) all other got.open_bit ∙ one in
      elim way [
        | inl (ended, out) ↦ (
          out ∙ got.last ended,
          λ i one. elim (==-cases i (m.type - 1)) [
            | inl same ↦ here i (omega (arith, same, got.port))
            | inr other ↦
                absurd
                  (omega (arith, bit-zero i, sym (ap (bit i) (got.last ended)) ∙ kept i other one))
          ],
        )
        | inr (_, next) ↦
            let (none, seen) = rec next in
            (
              none,
              λ i one. elim (==-cases i (m.type - 1)) [
                | inl same ↦ here i (omega (arith, same, got.port))
                | inr other ↦ Seen-cons m ms i (seen i (kept i other one))
              ],
            )
      ]

  -- If the test with the mask is passed, then the mask is empty in the end, and every interface
  -- with a bit in it has sent a message that carries the frame.
  pub scan-Seen :
      (ms : List Message) (n all : ℕ) {all' : ℕ} {rest : List Message}
      → scan (multicast frame len) n all ms ≡ ok (0, all', rest)
      → (all' ≡ 0) × ((i : ℕ) → bit i all ≡ 1 → Seen frame len i ms)
  unfolding scan
  scan-Seen ms zero all e = absurd (ground arith)
  scan-Seen [] (suc n) all e = absurd (ground arith)
  scan-Seen (m ∷ ms) (suc n) all {all'} {rest} e =
      elim (Result-cases (expect_multicast all m.type m.body (length m.body) frame len)) [
        | inr (x, r) ↦ absurd (let no : err x ≡ ok (0, all', rest) = rw (scan, r) at e in cc no)
        | inl ((ret, c), r) ↦
            Seen-step m ms n (expect_multicast-cases frame len m.type m.body (length m.body) all r)
              (scan-step (multicast frame len) n all m ms r e)
              (λ next. scan-Seen ms (if ret == 2 then suc n else n) c next)
      ]

  expect_multicast-hit :
      (t all : ℕ) (msg : Bytes) (n : ℕ)
      → IsPort t
      → (bit_and all (2 ^ (t - 1)) == 0) ≡ false
      → fits_frame msg n frame len ≡ true
      → expect_multicast all t msg n frame len
        ≡ ok (if all - 2 ^ (t - 1) == 0 then 0 else 1, all - 2 ^ (t - 1))
  unfolding expect_multicast expect_frame
  expect_multicast-hit t all msg n p opened fits = ground arith

  -- The first of the expected messages.
  first_hit :
      (m : Message) (ms : List Message) {code : ℕ}
      → All IsPort (types (m ∷ ms))
      → IsDistinct (types (m ∷ ms))
      → fits_frame m.body (length m.body) frame len ≡ true
      → (if mask_of (types ms) == 0 then 0 else 1) ≡ code
      → expect_multicast (mask_of (types (m ∷ ms))) m.type m.body (length m.body) frame len
        ≡ ok (code, mask_of (types ms))
  unfolding types
  first_hit m ms p d f c =
      let less : mask_of (m.type ∷ types ms) - 2 ^ (m.type - 1) ≡ mask_of (types ms) =
        omega arith in
      expect_multicast-hit m.type (mask_of (m.type ∷ types ms)) m.body (length m.body) p.0
        (bit-mask_of m.type (types ms) p d) f
      ∙ rw less (ap (λ k. ok (k, mask_of (types ms))) c)

  mask-positive : (m : Message) (ms : List Message) → (mask_of (types (m ∷ ms)) == 0) ≡ false
  unfolding types
  mask-positive m ms = ground (arith, one-le-pow (m.type - 1) 2)

  -- One message from each of some interfaces, in any order, with the frame, passes the test with
  -- these interfaces as the mask.
  pub scan-mask_of :
      (ms rest : List Message) (n : ℕ)
      → 0 < length ms
      → length ms ≤ n
      → All IsPort (types ms)
      → IsDistinct (types ms)
      → All (λ m. fits_frame m.body (length m.body) frame len ≡ true) ms
      → scan (multicast frame len) n (mask_of (types ms)) (ms ++ rest) ≡ ok (0, 0, rest)
  unfolding types
  scan-mask_of [] rest n some_ few p d f = absurd (omega arith)
  scan-mask_of (m ∷ ms) rest zero some_ few p d f = absurd (omega arith)
  scan-mask_of (m ∷ []) rest (suc n) some_ few p d f =
      scan-found (multicast frame len) n _ m rest (first_hit m [] p d f.0 refl)
  scan-mask_of (m ∷ m' ∷ ms) rest (suc n) some_ few p d f =
      scan-next (multicast frame len) n _ m (m' ∷ (ms ++ rest))
        (first_hit m (m' ∷ ms) p d f.0 (rw (mask-positive m' ms) refl))
      ∙ scan-mask_of (m' ∷ ms) rest n (omega arith) (omega arith) p.1 d.1 f.1

-- ===== src/Harness/Refinement.antt =====
-- `trecv` against its meaning: the receiver's answers to one message after the other.
use project_and_training_3_n.Base.{
  ℕ, zero, suc, ◌+◌, ◌^◌, ◌<◌, ◌≡◌, inl, inr, sym, ap, ◌∙◌, true, false, List, [], ◌∷◌, ◌++◌, Bytes,
  ◌==◌, if◌then◌else◌, Bool-cases, length, drop, length-append, Result, ok, err, All, arith,
}
use project_and_training_3_n.Wire.{header_size}
use project_and_training_3_n.Wire.Delivery.{Message, encode_all}
use project_and_training_3_n.Wire.Stream.{Result-cases}
use project_and_training_3_n.Harness.{Wait, Harness, memory}
use project_and_training_3_n.Harness.Receive.{
  size_of, type_of, remove_message, Receiver, Outcome, done, fault, body_size, attempt, attempts,
  trecv,
}
use project_and_training_3_n.Harness.Stream.{Ready-Holds, IsSized, Ready, fill-Ready, fill-nil}
use project_and_training_3_n.Harness.First.{remove_message-Ready, First, first_message}

-- The code, the closure and the messages that are left, after at most some attempts.
unfoldable pub scan :
    {C : Type 0} → Receiver C → ℕ → C → List Message → Result (ℕ × C × List Message)
scan recv zero cls ms = ok (1, cls, ms)
scan recv (suc n) cls [] = ok (1, cls, [])
scan recv (suc n) cls (m ∷ ms) = elim (recv cls m.type m.body (length m.body)) [
  | err f ↦ err f
  | ok (ret, cls') ↦ elim (ret == 0) [
    | true ↦ ok (0, cls', ms)
    | false ↦ scan recv (if ret == 2 then suc n else n) cls' ms
  ]
]

-- What stands behind the message does not matter to the receiver.
abbrev pub IsLocal : {C : Type 0} → Receiver C → Type 0
IsLocal {C} recv =
    (cls : C) (type : ℕ) (body behind : Bytes)
    → recv cls type (body ++ behind) (length body) ≡ recv cls type body (length body)

-- The same code, closure and messages left; or the same fault. An endless run means nothing.
pub data Means {C : Type 0} : Outcome C → Result (ℕ × C × List Message) → Type 0 where
  ends :
      (code : ℕ) (cls : C) (h : Harness) (ws : List Wait) (ms : List Message)
      → Ready h ws ms
      → Means (done code cls h ws) (ok (code, cls, ms))
  faults : (f : _) → Means (fault f) (err f)

body_size_lem : (n : ℕ) → n < 2 ^ 16 → body_size (header_size + n) ≡ n
body_size_lem n small = omega arith

module _ {C : Type 0} (recv : Receiver C) (local : IsLocal recv) where
  receive_first :
      (h : Harness) (m : Message) (ms : List Message) (cls : C)
      → IsSized m
      → First h m ms
      → recv cls (type_of h) (drop header_size (memory h)) (body_size (size_of h))
        ≡ recv cls m.type m.body (length m.body)
  receive_first h m ms cls v f =
      rw (f.sized, f.typed, f.body, body_size_lem (length m.body) (omega (arith, v)))
        (local cls m.type m.body f.behind)

  attempt-scan :
      (ms : List Message) (fuel n : ℕ) (cls : C) (h : Harness) (ws : List Wait)
      → All IsSized ms
      → Ready h ws ms
      → n + length (encode_all ms) < fuel
      → Means (attempt recv fuel n cls h ws) (scan recv n cls ms)
  unfolding attempt scan
  attempt-scan ms zero n cls h ws v r more = absurd (omega arith)
  attempt-scan ms (suc fuel) zero cls h ws v r more = ends 1 cls h ws ms r
  attempt-scan [] (suc fuel) (suc n) cls h ws v r more =
      let (ws', same, r') = fill-nil ws h r in
      rw (ap (λ p. p.0) same, ap (λ p. p.1) same, ap (λ p. p.2) same, attempt)
        (ends 1 cls h ws' [] r')
  attempt-scan (m ∷ ms) (suc fuel) (suc n) cls h ws v r more =
      let ((h', ws'), same, r', whole) = fill-Ready ws h m ms v.0 r in
      let full = ap (λ p. p.0) same in
      let then_h = ap (λ p. p.1) same in
      let then_ws = ap (λ p. p.2) same in
      let f = first_message h' m ms v.0 (Ready-Holds r') whole in
      let next = remove_message-Ready r' f in
      let seen = receive_first h' m ms cls v.0 f in
      let left : n + length (encode_all ms) + header_size < suc fuel =
        omega (arith, length-append m.body (encode_all ms)) in
      elim (Result-cases (recv cls m.type m.body (length m.body))) [
        | inr (x, e) ↦ rw (full, then_h, attempt, seen, e, scan) (faults x)
        | inl ((ret, cls'), e) ↦ elim (Bool-cases (ret == 0)) [
          | inl found ↦
              rw (full, then_h, attempt, seen, e, found, then_h, then_ws, scan)
                (ends 0 cls' (remove_message h') ws' ms next)
          | inr other ↦ elim (Bool-cases (ret == 2)) [
            | inl skipped ↦
                rw (full, then_h, attempt, seen, e, other, skipped, then_h, then_ws, scan)
                  (attempt-scan ms fuel (suc n) cls' (remove_message h') ws' v.1 next (omega arith))
            | inr counted ↦
                rw (full, then_h, attempt, seen, e, other, counted, then_h, then_ws, scan)
                  (attempt-scan ms fuel n cls' (remove_message h') ws' v.1 next (omega arith))
          ]
        ]
      ]

  -- When the child has written whole messages of a size that fits and can be read until they are
  -- all there, and the receiver looks at the message alone, `trecv` ends: with the code and the
  -- closure that the receiver's answers to the messages in order lead to, or with its fault, and
  -- the messages after the last that it saw are still to be read.
  pub trecv-scan :
      (skip : ℕ) (cls : C) (h : Harness) (ws : List Wait) (ms : List Message)
      → All IsSized ms
      → Ready h ws ms
      → Means (trecv skip recv cls h ws) (scan recv (attempts skip) cls ms)
  unfolding trecv
  trecv-scan skip cls h ws ms v r =
      attempt-scan ms (suc (attempts skip + (length h.child_buf + length h.pipe))) (attempts skip)
        cls h ws v r (omega (arith, sym (length-append h.child_buf h.pipe) ∙ ap length r.stream))

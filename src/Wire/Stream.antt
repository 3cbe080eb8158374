-- ===== src/Wire/Stream.antt =====
-- The main loop does not see how its input is cut into `read`s.
use mathlib.Core.List.{flatten}
use native.Mathlib.Nat.{le_of_eq}
use project_and_training_3_n.Base.{
  ℕ, zero, suc, ◌+◌, ◌-◌, ◌≤◌, ◌<◌, ◌≡◌, ◌⊎◌, inl, inr, refl, sym, ap, ◌∙◌, false, List, [], ◌∷◌,
  ◌++◌, Bytes, ntohs, leb, ltb, Bool-cases, length, drop, Result, ok, err, aborted, ◌>>=◌,
  length-append, length-drop, drop-append_le, take-append_le, append_assoc, append-nil, All, arith,
}
use project_and_training_3_n.Wire.{header_size}
use project_and_training_3_n.Wire.Loop.{Handlers, LoopState, consume, drain, receive, run, loop}

pub Result-cases {ℓ} :
    {A : Type ℓ} (r : Result A) → ((a : A) × (r ≡ ok a)) ⊎ ((e : _) × (r ≡ err e))
Result-cases (ok a) = inl (a, refl)
Result-cases (err e) = inr (e, refl)

-- More bytes behind those in the buffer.
abbrev grow : {S : Type 0} → LoopState S → Bytes → LoopState S
grow st b = record { buf = st.buf ++ b; have_mac = st.have_mac; app = st.app }

ntohs_append : (xs ys : Bytes) → 2 ≤ length xs → ntohs (xs ++ ys) ≡ ntohs xs
ntohs_append [] ys h = absurd (omega arith)
ntohs_append (a ∷ []) ys h = absurd (omega arith)
ntohs_append (a ∷ b ∷ xs) ys h = refl

module _ {S : Type 0} (h : Handlers S) where
  -- A message is complete in the buffer, with a size that is no less than its header's.
  pub record Complete (st : LoopState S) : Type 0 where
    pub long : header_size < length st.buf
    pub here : ntohs st.buf ≤ length st.buf
    pub sized : header_size ≤ ntohs st.buf

  pub consume-buf :
      (st : LoopState S) {st' : LoopState S}
      → consume h st ≡ ok st'
      → st'.buf ≡ drop (ntohs st.buf) st.buf
  unfolding consume
  consume-buf st e = ground arith

  pub consume-shrinks :
      (st : LoopState S) {st' : LoopState S}
      → Complete st
      → consume h st ≡ ok st'
      → length st'.buf < length st.buf
  consume-shrinks st c e = rw (consume-buf st e) (omega (arith, length-drop (ntohs st.buf) st.buf))

  consume-grow :
      (st : LoopState S) (b : Bytes)
      → Complete st
      → consume h (grow st b) ≡ (consume h st >>= λ st'. ok (grow st' b))
  unfolding consume
  consume-grow st b c = ground (
    arith,
    ntohs_append st.buf b (omega arith),
    ntohs_append (drop 2 st.buf) b (omega (arith, length-drop 2 st.buf)),
    drop-append_le st.buf b 2 (omega arith),
    drop-append_le st.buf b 4 (omega arith),
    drop-append_le st.buf b (ntohs st.buf) (omega arith),
    take-append_le (drop 4 st.buf) b (ntohs st.buf - 4) (omega (arith, length-drop 4 st.buf)),
  )

  -- How the guards of the loop fall out.
  pub data Guards (st : LoopState S) : Type 0 where
    waits :
        (length st.buf ≤ header_size) ⊎ (length st.buf < ntohs st.buf)
        → ((f : ℕ) → drain h f st ≡ ok st)
        → Guards st
    bad :
        header_size < length st.buf
        → ntohs st.buf ≤ length st.buf
        → ntohs st.buf < header_size
        → ((f : ℕ) → drain h (suc f) st ≡ err aborted)
        → Guards st
    full : Complete st → ((f : ℕ) → drain h (suc f) st ≡ (consume h st >>= drain h f)) → Guards st

  pub guards : (st : LoopState S) → Guards st
  unfolding drain
  guards st = elim (Bool-cases (leb (length st.buf) header_size)) [
    | inl short ↦ waits (inl (ground arith)) (elim [ zero ↦ refl | suc f ↦ rw short ])
    | inr long ↦ elim (Bool-cases (ltb (length st.buf) (ntohs st.buf))) [
      | inl part ↦ waits (inr (ground arith)) (elim [ zero ↦ refl | suc f ↦ rw (long, part) ])
      | inr whole ↦ elim (Bool-cases (ltb (ntohs st.buf) header_size)) [
        | inl small ↦
            bad (ground arith) (ground arith) (ground arith) (λ f. rw (long, whole, small))
        | inr large ↦
            full (record { long = ground arith; here = ground arith; sized = ground arith })
              (λ f. rw (long, whole, large))
      ]
    ]
  ]

  -- Fuel for every byte in the buffer is enough.
  pub drain_fuel :
      (f g : ℕ) (st : LoopState S)
      → length st.buf ≤ f
      → length st.buf ≤ g
      → drain h f st ≡ drain h g st
  drain_fuel zero g st hf hg = elim (guards st) [
    | waits _ w ↦ w zero ∙ sym (w g)
    | bad l _ _ _ ↦ absurd (omega arith)
    | full c _ ↦ absurd (omega arith)
  ]
  drain_fuel (suc f) zero st hf hg = elim (guards st) [
    | waits _ w ↦ w (suc f) ∙ sym (w zero)
    | bad l _ _ _ ↦ absurd (omega arith)
    | full c _ ↦ absurd (omega arith)
  ]
  drain_fuel (suc f) (suc g) st hf hg = elim (guards st) [
    | waits _ w ↦ w (suc f) ∙ sym (w (suc g))
    | bad _ _ _ b ↦ b f ∙ sym (b g)
    | full c e ↦ elim (Result-cases (consume h st)) [
      | inl (st', r) ↦
          let less = consume-shrinks st c r in
          rw (e f, e g, r) (drain_fuel f g st' (omega arith) (omega arith))
      | inr (x, r) ↦ rw (e f, e g, r) refl
    ]
  ]

  grow_bad :
      (st : LoopState S) (b : Bytes) (f : ℕ)
      → header_size < length st.buf
      → ntohs st.buf ≤ length st.buf
      → ntohs st.buf < header_size
      → drain h (suc f) (grow st b) ≡ err aborted
  unfolding drain
  grow_bad st b f long here small =
      ground (arith, ntohs_append st.buf b (omega arith), length-append st.buf b)

  grow_full :
      (st : LoopState S) (b : Bytes) (f : ℕ)
      → Complete st
      → drain h (suc f) (grow st b) ≡ (consume h (grow st b) >>= drain h f)
  unfolding drain
  grow_full st b f c = ground (arith, ntohs_append st.buf b (omega arith), length-append st.buf b)

  pub drain-Complete :
      (f : ℕ) (st : LoopState S) → Complete st → drain h (suc f) st ≡ (consume h st >>= drain h f)
  unfolding drain
  drain-Complete f st c = ground arith

  -- To work off the buffer and then, with `b` behind what is left, again, is to do it once.
  drain-grow :
      (f g : ℕ) (st : LoopState S) (b : Bytes)
      → length st.buf ≤ f
      → length st.buf + length b ≤ g
      → (drain h f st >>= λ st'. drain h g (grow st' b)) ≡ drain h g (grow st b)
  drain-grow zero g st b hf hg = elim (guards st) [
    | waits _ w ↦ rw (w zero) refl
    | bad l _ _ _ ↦ absurd (omega arith)
    | full c _ ↦ absurd (omega arith)
  ]
  drain-grow (suc f) zero st b hf hg = elim (guards st) [
    | waits _ w ↦ rw (w (suc f)) refl
    | bad l _ _ _ ↦ absurd (omega arith)
    | full c _ ↦ absurd (omega arith)
  ]
  drain-grow (suc f) (suc g) st b hf hg = elim (guards st) [
    | waits _ w ↦ rw (w (suc f)) refl
    | bad l i s e ↦ rw (e f) (sym (grow_bad st b g l i s))
    | full c e ↦ elim (Result-cases (consume h st)) [
      | inl (st', r) ↦
          let less = consume-shrinks st c r in
          let n = length-append st'.buf b in
          rw (e f, r)
            (drain-grow f (suc g) st' b (omega arith) (omega arith)
              ∙ drain_fuel (suc g) g (grow st' b) (omega arith) (omega arith)
              ∙ sym (rw (grow_full st b g c, consume-grow st b c, r) refl))
      | inr (x, r) ↦ rw (e f, r) (sym (rw (grow_full st b g c, consume-grow st b c, r) refl))
    ]
  ]

  -- What is in the buffer after two reads.
  both : (st : LoopState S) (a b : Bytes) → grow (grow st a) b ≡ grow st (a ++ b)
  both st a b =
      ap (λ buf. record { buf = buf; have_mac = st.have_mac; app = st.app })
        (append_assoc st.buf a b)

  -- Two reads in a row do what one read of both their bytes does, an abort included.
  pub receive-append :
      (st : LoopState S) (a b : Bytes)
      → (receive h st a >>= λ st'. receive h st' b) ≡ receive h st (a ++ b)
  unfolding receive
  receive-append st a b = elim (Result-cases (drain h (length (st.buf ++ a)) (grow st a))) [
    | inl (st', r) ↦
        let g = length (st'.buf ++ b) + (length (st.buf ++ a) + length b) in
        let once = drain-grow (length (st.buf ++ a)) g (grow st a) b (omega arith) (omega arith) in
        rw (← both st a b, r)
          (drain_fuel (length (st'.buf ++ b)) g (grow st' b) (omega arith) (omega arith)
            ∙ (rw r at once)
            ∙ drain_fuel g (length (st.buf ++ (a ++ b))) (grow (grow st a) b)
                (omega (arith, length-append (st.buf ++ a) b))
                (le_of_eq (ap length (append_assoc st.buf a b))))
    | inr (x, r) ↦
        let g = length (st.buf ++ a) + length b in
        let once = drain-grow (length (st.buf ++ a)) g (grow st a) b (omega arith) (omega arith) in
        rw (← both st a b, r)
          ((rw r at once)
            ∙ drain_fuel g (length (st.buf ++ (a ++ b))) (grow (grow st a) b)
                (omega (arith, length-append (st.buf ++ a) b))
                (le_of_eq (ap length (append_assoc st.buf a b))))
  ]

  receive-nil :
      (st : LoopState S) (a : Bytes) {st' : LoopState S}
      → receive h st a ≡ ok st'
      → receive h st' [] ≡ ok st'
  receive-nil st a e = rw e at (receive-append st a []) ∙ rw append-nil e

  run-flatten :
      (chunks : List Bytes) (st : LoopState S)
      → All (λ c. 0 < length c) chunks
      → receive h st [] ≡ ok st
      → run h chunks st ≡ receive h st (flatten chunks)
  unfolding run flatten
  run-flatten [] st live idle = sym idle
  run-flatten ([] ∷ chunks) st live idle = absurd (omega arith)
  run-flatten ((x ∷ xs) ∷ chunks) st live idle = elim (Result-cases (receive h st (x ∷ xs))) [
    | inl (st', r) ↦ rw r (
        run-flatten chunks st' live.1 (receive-nil st (x ∷ xs) r)
        ∙ (rw r at (receive-append st (x ∷ xs) (flatten chunks))))
    | inr (e, r) ↦ rw r (rw r at (receive-append st (x ∷ xs) (flatten chunks)))
  ]

  -- What the main loop does depends on the bytes that it reads, and not on how the reads, each of
  -- one byte or more, cut them into pieces: it is what one read of all of them does.
  pub loop-flatten :
      (chunks : List Bytes) (s : S)
      → All (λ c. 0 < length c) chunks
      → loop h chunks s
        ≡ receive h (record { buf = []; have_mac = false; app = s }) (flatten chunks)
  unfolding loop receive drain
  loop-flatten chunks s live = run-flatten chunks _ live refl

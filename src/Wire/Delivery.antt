-- ===== src/Wire/Delivery.antt =====
-- The messages that a stream holds reach the callbacks, and the buffer has room for every read.
use mathlib.Core.List.{flatten}
use project_and_training_3_n.Base.{
  ℕ, zero, suc, ◌+◌, ◌-◌, ◌^◌, ◌≤◌, ◌<◌, ◌≡◌, inl, inr, refl, sym, ◌∙◌, Bool, false, List, [], ◌∷◌,
  ◌++◌, Bytes, ntohs, length, drop, Result, ok, err, ◌>>=◌, length-append, take_append, drop_append,
  All, arith,
}
use project_and_training_3_n.Wire.{header_size, header_bytes}
use project_and_training_3_n.Wire.Loop.{
  Handlers, LoopState, buffer_size, dispatch, consume, drain, receive, loop,
}
use project_and_training_3_n.Wire.Stream.{
  Result-cases, waits, bad, full, guards, consume-buf, consume-shrinks, Complete, drain-Complete,
  loop-flatten,
}

abbrev pub IsByte : ℕ → Type 0
IsByte x = x < 256

ntohs-lt : (xs : Bytes) → All IsByte xs → ntohs xs < 2 ^ 16
ntohs-lt [] v = omega arith
ntohs-lt (a ∷ []) v = omega arith
ntohs-lt (a ∷ b ∷ xs) v = omega arith

All-drop : (n : ℕ) (xs : Bytes) → All IsByte xs → All IsByte (drop n xs)
All-drop zero xs v = v
All-drop (suc n) [] v = v
All-drop (suc n) (x ∷ xs) v = All-drop n xs v.1

ok_injective {ℓ} : {A : Type ℓ} {a b : A} → ok a ≡ ok b → a ≡ b
ok_injective e = cc

module _ {S : Type 0} (h : Handlers S) where
  drain_room :
      (f : ℕ) (st : LoopState S) {st' : LoopState S}
      → length st.buf ≤ f
      → All IsByte st.buf
      → drain h f st ≡ ok st'
      → (length st'.buf < buffer_size) × All IsByte st'.buf
  unfolding drain
  drain_room zero st len v e = ground (arith, ok_injective e)
  drain_room (suc f) st {st'} len v e = elim (guards h st) [
    | waits (inl short) w ↦ rw (← ok_injective (sym (w (suc f)) ∙ e)) (omega arith, v)
    | waits (inr part) w ↦
        rw (← ok_injective (sym (w (suc f)) ∙ e)) (omega (arith, ntohs-lt st.buf v), v)
    | bad _ _ _ b ↦ absurd (cc (b f))
    | full c step ↦ elim (Result-cases (consume h st)) [
      | inl (st1, r) ↦
          let kept : All IsByte st1.buf =
            rw (consume-buf h st r) (All-drop (ntohs st.buf) st.buf v) in
          drain_room f st1 (omega (arith, consume-shrinks h st c r)) kept (rw (step f, r) at e)
      | inr (x, r) ↦ absurd (let no : err x ≡ ok st' = rw (step f, r) at e in cc no)
    ]
  ]

  -- After each read the program leaves room in the buffer: the next `read` asks for a byte or
  -- more, so that it returns 0 only at the end of the input.
  pub receive_room :
      (st : LoopState S) (chunk : Bytes) {st' : LoopState S}
      → All IsByte (st.buf ++ chunk)
      → receive h st chunk ≡ ok st'
      → (length st'.buf < buffer_size) × All IsByte st'.buf
  unfolding receive
  receive_room st chunk v e = drain_room _ _ (omega arith) v e

-- A message as its sender means it.
pub record Message : Type 0 where
  pub type : ℕ
  pub body : Bytes

abbrev pub encode : Message → Bytes
encode m = header_bytes (record { size = length m.body + header_size; type = m.type }) ++ m.body

abbrev pub encode_all : List Message → Bytes
encode_all [] = []
encode_all (m ∷ ms) = encode m ++ encode_all ms

unfoldable pub types : List Message → List ℕ
types [] = []
types (m ∷ ms) = m.type ∷ types ms

-- The type and the size fit their fields, and the body is not empty.
abbrev pub Fits : Message → Type 0
Fits m = (m.type < 2 ^ 16) × (0 < length m.body) × (length m.body + header_size < 2 ^ 16)

bind-bind :
    {A B C : Type 0} (m : Result A) (f : A → Result B) (g : B → Result C)
    → ((m >>= f) >>= g) ≡ (m >>= λ a. f a >>= g)
bind-bind (ok a) f g = refl
bind-bind (err e) f g = refl

module _ {S : Type 0} (h : Handlers S) where
  -- One call of a callback for each message (or one for each address), in order.
  unfoldable pub deliver : List Message → Bool → S → Result (Bool × S)
  deliver [] seen s = ok (seen, s)
  deliver (m ∷ ms) seen s = do (seen', s') ← dispatch h m.type m.body seen s; deliver ms seen' s'

  consume-encode :
      (m : Message) (rest : Bytes) (seen : Bool) (s : S)
      → Fits m
      → consume h (record { buf = encode m ++ rest; have_mac = seen; app = s }) ≡ (
          dispatch h m.type m.body seen s >>= λ r.
          ok (record { buf = rest; have_mac = r.0; app = r.1 }))
  unfolding consume
  consume-encode m rest seen s v =
      let size : ntohs (encode m ++ rest) ≡ suc (suc (suc (suc (length m.body)))) = omega arith in
      let type : ntohs (drop 2 (encode m ++ rest)) ≡ m.type = omega arith in
      let text : suc (suc (suc (suc (length m.body)))) - header_size ≡ length m.body =
        omega arith in
      rw (size, type, text, take_append m.body rest _ refl, drop_append m.body rest _ refl) refl

  encode-Complete :
      (m : Message) (rest : Bytes) (seen : Bool) (s : S)
      → Fits m
      → Complete h (record { buf = encode m ++ rest; have_mac = seen; app = s })
  encode-Complete m rest seen s v = omega (arith, length-append m.body rest)

  drain-encode :
      (f : ℕ) (m : Message) (rest : Bytes) (seen : Bool) (s : S)
      → Fits m
      → drain h (suc f) (record { buf = encode m ++ rest; have_mac = seen; app = s }) ≡ (
          dispatch h m.type m.body seen s >>= λ r.
          drain h f (record { buf = rest; have_mac = r.0; app = r.1 }))
  drain-encode f m rest seen s v =
      let st : LoopState S = record { buf = encode m ++ rest; have_mac = seen; app = s } in
      rw (drain-Complete h f st (encode-Complete m rest seen s v), consume-encode m rest seen s v)
        (bind-bind (dispatch h m.type m.body seen s) _ (drain h f))

  drain-nil :
      (f : ℕ) (seen : Bool) (s : S)
      → drain h f (record { buf = []; have_mac = seen; app = s })
        ≡ ok (record { buf = []; have_mac = seen; app = s })
  unfolding drain
  drain-nil zero seen s = refl
  drain-nil (suc f) seen s = refl

  drain-encode_all :
      (ms : List Message) (f : ℕ) (seen : Bool) (s : S)
      → All Fits ms
      → length (encode_all ms) ≤ f
      → drain h f (record { buf = encode_all ms; have_mac = seen; app = s })
        ≡ (deliver ms seen s >>= λ r. ok (record { buf = []; have_mac = r.0; app = r.1 }))
  unfolding deliver
  drain-encode_all [] f seen s v len = drain-nil f seen s
  drain-encode_all (m ∷ ms) zero seen s v len = absurd (omega arith)
  drain-encode_all (m ∷ ms) (suc f) seen s v len =
      drain-encode f m (encode_all ms) seen s v.0
      ∙ elim (Result-cases (dispatch h m.type m.body seen s)) [
        | inl (r, e) ↦ rw e (
            drain-encode_all ms f r.0 r.1 v.1 (omega (arith, length-append m.body (encode_all ms))))
        | inr (x, e) ↦ rw e refl
      ]

  -- If the bytes of all reads, each of one byte or more, are the encodings of messages that fit the
  -- format, with no empty body, then the main loop makes for each message in order the calls that
  -- `dispatch` says, and nothing else: it ends with an empty buffer and the state they lead to, or
  -- with the abort of one of them.
  pub loop-deliver :
      (chunks : List Bytes) (ms : List Message) (s : S)
      → All (λ c. 0 < length c) chunks
      → All Fits ms
      → flatten chunks ≡ encode_all ms
      → loop h chunks s
        ≡ (deliver ms false s >>= λ r. ok (record { buf = []; have_mac = r.0; app = r.1 }))
  unfolding receive
  loop-deliver chunks ms s live v same =
      loop-flatten h chunks s live
      ∙ rw same (drain-encode_all ms (length (encode_all ms)) false s v (omega arith))

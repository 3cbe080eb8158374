-- ===== src/Harness/Sending.antt =====
-- What the harness sends arrives as it means it.
use mathlib.Core.List.{flatten}
use project_and_training_3_n.Base.{
  ℕ, ◌+◌, ◌*◌, ◌/◌, ◌^◌, ◌<◌, ◌≡◌, refl, sym, ap, ◌∙◌, true, false, List, [], ◌∷◌, ◌++◌, Bytes,
  htons, length, take_append, drop_append, length-append, Result, ok, ◌>>=◌, All, arith, inl, inr,
}
use project_and_training_3_n.Wire.Stream.{Result-cases}
use project_and_training_3_n.Wire.{header_size, mac_addr_size, MacAddress}
use project_and_training_3_n.Wire.Loop.{Handlers, deliver_macs, dispatch, loop}
use project_and_training_3_n.Wire.Delivery.{
  Message, encode, encode_all, Fits, deliver, loop-deliver,
}
use project_and_training_3_n.Harness.{tsend}
use project_and_training_3_n.Harness.Meta.{control_message}

-- The bytes of some calls of `tsend`.
unfoldable pub sent : List Message → Result Bytes
unfolding tsend
sent [] = ok []
sent (m ∷ ms) = do front ← tsend m.type m.body; back ← sent ms; ok (front ++ back)

abbrev pub IsMac : MacAddress → Type 0
IsMac mac = length mac ≡ mac_addr_size

tsend-encode : (m : Message) → Fits m → tsend m.type m.body ≡ ok (encode m)
unfolding tsend
tsend-encode m v = ground arith

sent-encode_all : (ms : List Message) → All Fits ms → sent ms ≡ ok (encode_all ms)
unfolding sent
sent-encode_all [] v = refl
sent-encode_all (m ∷ ms) v = rw (sent, tsend-encode m v.0, sent-encode_all ms v.1) refl

-- The control message, as one of the messages of the stream.
first_message : List MacAddress → Message
first_message macs = record { type = 0; body = flatten macs }

length-flatten :
    (macs : List MacAddress) → All IsMac macs → length (flatten macs) ≡ length macs * mac_addr_size
unfolding flatten
length-flatten [] v = omega arith
length-flatten (mac ∷ macs) v =
    length-append mac (flatten macs) ∙ omega (arith, v.0, length-flatten macs v.1)

control_message-encode :
    (macs : List MacAddress) → All IsMac macs → control_message macs ≡ encode (first_message macs)
unfolding control_message first_message
control_message-encode macs v =
    ap (λ (k : ℕ). htons k ++ (htons 0 ++ flatten macs)) (omega (arith, length-flatten macs v))

ok_injective : {A : Type 0} {a b : A} → ok a ≡ ok b → a ≡ b
ok_injective e = cc

module _ {S : Type 0} (h : Handlers S) where
  -- `handle_mac` of each address, the interfaces in order.
  unfoldable pub handle_macs : ℕ → List MacAddress → S → Result S
  handle_macs i [] s = ok s
  handle_macs i (mac ∷ macs) s = do s' ← h.mac (i + 1) mac s; handle_macs (i + 1) macs s'

  deliver_macs-flatten :
      (macs : List MacAddress) (i : ℕ) (s : S)
      → All IsMac macs
      → deliver_macs h (length macs) i (flatten macs) s ≡ handle_macs i macs s
  unfolding deliver_macs handle_macs flatten
  deliver_macs-flatten [] i s v = refl
  deliver_macs-flatten (mac ∷ macs) i s v =
      rw
        (
          take_append mac (flatten macs) mac_addr_size v.0,
          drop_append mac (flatten macs) mac_addr_size v.0,
        )
        (elim (Result-cases (h.mac (i + 1) mac s)) [
          | inl (s', e) ↦ rw e (deliver_macs-flatten macs (i + 1) s' v.1)
          | inr (x, e) ↦ rw e refl
        ])

  deliver-first :
      (macs : List MacAddress) (ms : List Message) (s : S)
      → All IsMac macs
      → deliver h (first_message macs ∷ ms) false s
        ≡ (handle_macs 0 macs s >>= λ s'. deliver h ms true s')
  unfolding deliver dispatch first_message
  deliver-first macs ms s v =
      let count : length (flatten macs) / mac_addr_size ≡ length macs =
        omega (arith, length-flatten macs v) in
      rw (count, deliver_macs-flatten macs 0 s v)
        (elim (Result-cases (handle_macs 0 macs s)) [
          | inl (s', e) ↦ rw e refl
          | inr (x, e) ↦ rw e refl
        ])

  -- What the harness writes to the program under test, however its reads cut it, each of one byte
  -- or more, makes these calls: `handle_mac` for each of the addresses in order, and then for each
  -- call of `tsend` one of `handle_frame` or `handle_control`. There is an address or more, they
  -- fit into one message, and the messages fit the format, with no empty body.
  pub tsend-deliver :
      (chunks : List Bytes) (macs : List MacAddress) (ms : List Message) (s : S) {out : Bytes}
      → All (λ c. 0 < length c) chunks
      → All IsMac macs
      → 0 < length macs
      → header_size + length macs * mac_addr_size < 2 ^ 16
      → All Fits ms
      → sent ms ≡ ok out
      → flatten chunks ≡ control_message macs ++ out
      → loop h chunks s ≡ (
          handle_macs 0 macs s >>= λ s'.
          deliver h ms true s' >>= λ r. ok (record { buf = []; have_mac = r.0; app = r.1 }))
  unfolding first_message
  tsend-deliver chunks macs ms s live v some_ small fits out same =
      let first_fits : Fits (first_message macs) = omega (arith, length-flatten macs v) in
      loop-deliver h chunks (first_message macs ∷ ms) s live (first_fits, fits)
        (same
          ∙ rw (control_message-encode macs v, ok_injective (sym out ∙ sent-encode_all ms fits))
              refl)
      ∙ rw (deliver-first macs ms s v) (elim (Result-cases (handle_macs 0 macs s)) [
        | inl (s', e) ↦ rw e refl
        | inr (x, e) ↦ rw e refl
      ])

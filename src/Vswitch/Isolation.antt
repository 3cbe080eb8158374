-- ===== src/Vswitch/Isolation.antt =====
-- What leaves the switch, and where: frames stay in their VLAN and never go back.
use mathlib.Core.List.{flatten}
use project_and_training_3_n.Base.{
  ℕ, zero, suc, ◌+◌, ◌<◌, length, false, ◌≡◌, ◌≢◌, ◌⊎◌, inl, inr, refl, sym, ap, ◌∙◌, Bool, none,
  some, List, [], ◌∷◌, ◌++◌, Bytes, ◌==◌, if◌then◌else◌, Bool-cases, Option-cases, get_elem?, ok,
  All, All-append, append-nil, append_assoc, htons, subst, arith,
}
use project_and_training_3_n.Wire.Delivery.{Message, encode, encode_all, types}
use project_and_training_3_n.Wire.Loop.{LoopState, loop}
use project_and_training_3_n.Wire.Safety.{Ends}
use project_and_training_3_n.Wire.Commands.{Serves, Unless, empty_command, loop-Unless}
use project_and_training_3_n.Vswitch.{Interface, Vswitch}
use project_and_training_3_n.Vswitch.Forward.{
  interface_in_vlan, send_frame, retag, forward_frame, flood_frame,
}
use project_and_training_3_n.Vswitch.Table.{lookup_mac}
use project_and_training_3_n.Vswitch.Frame.{
  frame_vlan, ethernet_header, port, parse_frame, Running, handle_control, handlers,
}
use project_and_training_3_n.Vswitch.Invariant.{
  IsValid, taught, taught-IsValid, forward-Forwarded, handle_frame-IsValid, handle_mac-IsValid,
}

-- The numbers of the other ports that are members of a VLAN, in order.
unfoldable pub receivers : Interface → List Interface → ℕ → List ℕ
receivers src [] v = []
receivers src (dst ∷ gifc) v = elim (interface_in_vlan dst v) [
  | none ↦ receivers src gifc v
  | some kind ↦
      if src.ifc_num == dst.ifc_num
      then receivers src gifc v
      else dst.ifc_num ∷ receivers src gifc v
]

-- A message that carries the frame, with the right header, to another member port of its VLAN.
pub record IsDelivery (src : Interface) (gifc : List Interface) (frame : Bytes) (v : ℕ) (t : Bool)
    (m : Message) : Type 0 where
  pub dst : Interface
  pub kind : Bool
  pub place : ℕ
  pub exists : get_elem? gifc place ≡ some dst
  pub member : interface_in_vlan dst v ≡ some kind
  pub not_back : dst.ifc_num ≢ src.ifc_num
  pub type_is : m.type ≡ dst.ifc_num
  pub body_is : m.body ≡ retag t kind v frame

-- The bytes written are messages, each a delivery, and these are their receivers.
pub record Delivers (src : Interface) (gifc : List Interface) (frame : Bytes) (v : ℕ) (t : Bool)
    (out : Bytes) (to : List ℕ) : Type 0 where
  pub messages : List Message
  pub written : out ≡ encode_all messages
  pub each : All (IsDelivery src gifc frame v t) messages
  pub to_whom : types messages ≡ to

send_frame-encode :
    (n : ℕ) (frame : Bytes) → send_frame n frame ≡ encode (record { type = n; body = frame })
unfolding send_frame
send_frame-encode n frame = ap (λ (k : ℕ). htons k ++ (htons n ++ frame)) (omega arith)

IsDelivery-cons :
    (src x : Interface) (gifc : List Interface) (frame : Bytes) (v : ℕ) (t : Bool)
    (ms : List Message)
    → All (IsDelivery src gifc frame v t) ms
    → All (IsDelivery src (x ∷ gifc) frame v t) ms
IsDelivery-cons src x gifc frame v t [] a = a
IsDelivery-cons src x gifc frame v t (m ∷ ms) (d, a) = (
  record {
    dst = d.dst;
    kind = d.kind;
    place = suc d.place;
    exists = d.exists;
    member = d.member;
    not_back = d.not_back;
    type_is = d.type_is;
    body_is = d.body_is;
  },
  IsDelivery-cons src x gifc frame v t ms a,
)

encode_all-append : (ms ns : List Message) → encode_all (ms ++ ns) ≡ encode_all ms ++ encode_all ns
encode_all-append [] ns = refl
encode_all-append (m ∷ ms) ns =
    ap (◌++◌ (encode m)) (encode_all-append ms ns)
    ∙ sym (append_assoc (encode m) (encode_all ms) (encode_all ns))

types-append : (ms ns : List Message) → types (ms ++ ns) ≡ types ms ++ types ns
unfolding types
types-append [] ns = refl
types-append (m ∷ ms) ns = ap (◌∷◌ m.type) (types-append ms ns)

module _ (src : Interface) (frame : Bytes) (v : ℕ) (t : Bool) where
  Delivers-append :
      (gifc : List Interface) {out out' : Bytes} {to to' : List ℕ}
      → Delivers src gifc frame v t out to
      → Delivers src gifc frame v t out' to'
      → Delivers src gifc frame v t (out ++ out') (to ++ to')
  Delivers-append gifc d e = record {
    messages = d.messages ++ e.messages;
    written = rw (d.written, e.written) (sym (encode_all-append d.messages e.messages));
    each = All-append _ d.messages e.messages d.each e.each;
    to_whom = types-append d.messages e.messages ∙ rw (d.to_whom, e.to_whom) refl;
  }

  Delivers-cons :
      (x : Interface) (gifc : List Interface) {out : Bytes} {to : List ℕ}
      → Delivers src gifc frame v t out to
      → Delivers src (x ∷ gifc) frame v t out to
  Delivers-cons x gifc d = record {
    messages = d.messages;
    written = d.written;
    each = IsDelivery-cons src x gifc frame v t d.messages d.each;
    to_whom = d.to_whom;
  }

  -- The port gets the frame if it is another member of the VLAN, and nothing otherwise.
  pub forward_frame-Delivers :
      (gifc : List Interface) (place : ℕ) (dst : Interface)
      → get_elem? gifc place ≡ some dst
      → Delivers src gifc frame v t (forward_frame src dst frame v t) (receivers src (dst ∷ []) v)
  unfolding types forward_frame receivers
  forward_frame-Delivers gifc place dst there = elim (Option-cases (interface_in_vlan dst v)) [
    | inl out ↦ record {
      messages = [];
      written = rw (out, forward_frame) refl;
      each = tt;
      to_whom = rw (out, receivers) refl;
    }
    | inr (kind, e) ↦ elim (Bool-cases (src.ifc_num == dst.ifc_num)) [
      | inl back ↦ record {
        messages = [];
        written = rw (e, forward_frame, back) refl;
        each = tt;
        to_whom = rw (e, receivers, back) refl;
      }
      | inr on ↦ record {
        messages = record { type = dst.ifc_num; body = retag t kind v frame } ∷ [];
        written =
            rw (e, forward_frame, on)
              (send_frame-encode dst.ifc_num (retag t kind v frame) ∙ sym (append-nil _));
        each = (
          record {
            dst = dst;
            kind = kind;
            place = place;
            exists = there;
            member = e;
            not_back = ground arith;
            type_is = refl;
            body_is = refl;
          },
          tt,
        );
        to_whom = rw (e, receivers, on) refl;
      }
    ]
  ]

  receivers-cons :
      (x : Interface) (gifc : List Interface)
      → receivers src (x ∷ gifc) v ≡ receivers src (x ∷ []) v ++ receivers src gifc v
  unfolding receivers
  receivers-cons x gifc = ground arith

  -- Flooding sends the frame to every other member port of the VLAN, once and in order, and to
  -- nobody else.
  pub flood_frame-Delivers :
      (gifc : List Interface)
      → Delivers src gifc frame v t (flood_frame src gifc frame v t) (receivers src gifc v)
  unfolding flood_frame receivers types
  flood_frame-Delivers [] = record { messages = []; written = refl; each = tt; to_whom = refl }
  flood_frame-Delivers (x ∷ gifc) =
      subst (Delivers src (x ∷ gifc) frame v t _) (sym (receivers-cons x gifc)) (
        Delivers-append (x ∷ gifc) (forward_frame-Delivers (x ∷ gifc) 0 x refl)
          (Delivers-cons x gifc (flood_frame-Delivers gifc)))

-- To whom an accepted frame goes: to the one port that the table knows for its destination, or to
-- all other members of the VLAN.
abbrev pub ToWhom : ℕ → Vswitch → Interface → Bytes → ℕ → List ℕ → Type 0
ToWhom later sw ifc frame v to =
    (to ≡ receivers ifc sw.gifc v)
    ⊎ ((n : ℕ) × (dst : Interface) × (port sw.gifc n ≡ ok dst)
        × ((lookup_mac later sw.mac_table (ethernet_header frame).dst v).1 ≡ some n)
        × (to ≡ receivers ifc (dst ∷ []) v))

pub port-get_elem? :
    (gifc : List Interface) (n : ℕ) {dst : Interface}
    → port gifc n ≡ ok dst
    → (i : ℕ) × (get_elem? gifc i ≡ some dst)
unfolding port
port-get_elem? gifc zero e = absurd (cc e)
port-get_elem? gifc (suc i) e = (i, ground arith)

-- In a well-formed state, a frame that an interface accepts for a VLAN is written to other member
-- ports of that VLAN only, and never to the interface that it came from: `parse_frame` returns, and
-- what it wrote is one message for each port in a list, with the header that the port wants. The
-- list is that of all other members, or of the port that the table, with the source learned, has
-- for the destination.
pub parse_frame-Delivers :
    (now later : ℕ) (sw : Vswitch) (ifc : Interface) (frame : Bytes) {v : ℕ} {t : Bool}
    → IsValid sw
    → port sw.gifc ifc.ifc_num ≡ ok ifc
    → frame_vlan ifc frame ≡ some (v, t)
    → (r : Vswitch × Bytes) × (to : List ℕ) × (parse_frame now later sw ifc frame ≡ ok r)
      × Delivers ifc sw.gifc frame v t r.1 to
      × ToWhom later (taught now sw ifc frame v) ifc frame v to
unfolding parse_frame
parse_frame-Delivers now later sw ifc frame {v} {t} h here e =
    let f =
      forward-Forwarded later (taught now sw ifc frame v) ifc frame v t
        (taught-IsValid now sw ifc frame h here e) in
    let ran : parse_frame now later sw ifc frame
        ≡ ok (record { gifc = sw.gifc; mac_table = f.table }, f.out) =
      rw (e, parse_frame) f.result in
    elim f.how [
      | inl flooded ↦ (
        (record { gifc = sw.gifc; mac_table = f.table }, f.out),
        receivers ifc sw.gifc v,
        ran,
        rw flooded (flood_frame-Delivers ifc frame v t sw.gifc),
        inl refl,
      )
      | inr (n, dst, p, known, one) ↦
          let (i, there) = port-get_elem? sw.gifc n p in
          (
            (record { gifc = sw.gifc; mac_table = f.table }, f.out),
            receivers ifc (dst ∷ []) v,
            ran,
            rw one (forward_frame-Delivers ifc frame v t sw.gifc i dst there),
            inr (n, dst, p, known, refl),
          )
    ]

-- The callbacks of the switch keep its state well-formed, but for an empty command.
handlers-Serves : (time : ℕ → ℕ) → Serves (handlers time) (λ r. IsValid r.sw)
unfolding handlers handle_control
handlers-Serves time = record {
  frame = λ n body r pos valid.
      elim (handle_frame-IsValid (time r.step) (time (r.step + 1)) n body r.sw valid
        (omega arith)) [ inl (_, e) ↦ rw e refl | inr (q, e, valid') ↦ rw e valid' ];
  control = λ c cmd r valid. valid;
  empty = λ r. refl;
  mac = λ n addr r pos valid. elim (handle_mac-IsValid n addr r.sw valid (omega arith)) [
    | inl (_, e) ↦ rw e refl
    | inr (q, e, valid', _) ↦ rw e valid'
  ];
}

-- The switch, started in a well-formed state, ends in a well-formed state or aborts, whatever bytes
-- it reads and however the reads, each of one byte or more, cut them, and makes an access out of
-- bounds only if among the messages that it read whole there is, behind the addresses, a command
-- that is a header alone.
pub vswitch-Safe :
    (time : ℕ → ℕ) (chunks : List Bytes) (r : Running)
    → All (λ c. 0 < length c) chunks
    → IsValid r.sw
    → Ends
        (Unless (empty_command (length (flatten chunks)) false (flatten chunks)))
        (λ (st : LoopState Running). IsValid st.app.sw)
        (loop (handlers time) chunks r)
vswitch-Safe time chunks r live valid =
    loop-Unless (handlers time) (λ x. IsValid x.sw) (handlers-Serves time) chunks r live valid

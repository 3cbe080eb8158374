-- ===== src/Harness/Passing.antt =====
-- The VLAN switch as the harness runs it, from the bytes that are sent to those that are received.
use mathlib.Core.List.{flatten}
use project_and_training_3_n.Base.{
  ℕ, suc, ◌+◌, ◌-◌, ◌*◌, ◌^◌, ◌≤◌, ◌<◌, ◌≡◌, ◌≢◌, inl, inr, refl, sym, ap, ◌∙◌, Bool, true, false,
  not, some, List, [], ◌∷◌, ◌++◌, Bytes, ltb, ◌==◌, length, subst, append-nil, aborted, ok, err,
  All, arith,
}
use project_and_training_3_n.Wire.{header_size, mac_addr_size, MacAddress}
use project_and_training_3_n.Wire.Loop.{dispatch, loop}
use project_and_training_3_n.Wire.Delivery.{deliver}
use project_and_training_3_n.Vswitch.{Interface, Vswitch}
use project_and_training_3_n.Vswitch.Table.{is_multicast_or_broadcast}
use project_and_training_3_n.Vswitch.Forward.{interface_in_vlan, flood_frame}
use project_and_training_3_n.Vswitch.Frame.{
  ethernet_header, frame_vlan, port, forward, parse_frame, handle_frame, Running, handlers,
}
use project_and_training_3_n.Vswitch.Invariant.{IsValid, taught, handle_mac-IsValid}
use project_and_training_3_n.Vswitch.Isolation.{receivers}
use project_and_training_3_n.Harness.{Wait, Harness, tsend, child_buf_size}
use project_and_training_3_n.Harness.Expect.{pos}
use project_and_training_3_n.Harness.Masks.{mask_of}
use project_and_training_3_n.Harness.Receive.{done, trecv}
use project_and_training_3_n.Harness.Stream.{IsLive, Ready}
use project_and_training_3_n.Harness.Multicast.{multicast}
use project_and_training_3_n.Harness.Flooding.{trecv-flood_frame}
use project_and_training_3_n.Harness.Meta.{control_message}
use project_and_training_3_n.Harness.Sending.{IsMac, sent, handle_macs, tsend-deliver}

-- The switch before it reads.
abbrev pub fresh_run : Vswitch → Running
fresh_run sw = record { sw = sw; out = []; step = 0 }

-- What the switch has written when it has read all of `chunks`; nothing counts if it aborts.
unfoldable pub output : (ℕ → ℕ) → Vswitch → List Bytes → Bytes
output time sw chunks = elim (loop (handlers time) chunks (fresh_run sw)) [
  | ok st ↦ st.app.out
  | err _ ↦ []
]

-- The addresses keep the switch well-formed, and make it write nothing.
record Taken (before after : Running) : Type 0 where
  valid : IsValid after.sw
  silent : after.out ≡ before.out

ok_injective : {A : Type 0} {a b : A} → ok a ≡ ok b → a ≡ b
ok_injective e = cc

handle_macs-Taken :
    (time : ℕ → ℕ) (macs : List MacAddress) (i : ℕ) (r : Running) {r' : Running}
    → IsValid r.sw
    → handle_macs (handlers time) i macs r ≡ ok r'
    → Taken r r'
unfolding handle_macs handlers
handle_macs-Taken time [] i r v e =
    let same = ok_injective e in
    record { valid = subst (λ x. IsValid x.sw) same v; silent = ap (λ x. x.out) (sym same) }
handle_macs-Taken time (mac ∷ macs) i r {r'} v e =
    elim (handle_mac-IsValid (i + 1) mac r.sw v (omega arith)) [
      | inl (_, failed) ↦
          absurd (let no : err aborted ≡ ok r' = rw (handle_macs, failed) at e in cc no)
      | inr (sw', ran, v', _) ↦
          let t =
            handle_macs-Taken time macs (i + 1) (record r { sw = sw' }) v'
              (rw (handle_macs, ran) at e) in
          record { valid = t.valid; silent = t.silent }
    ]

-- A frame to a group goes to all other ports of its VLAN.
handle_frame-group :
    (now later n : ℕ) (sw : Vswitch) (ifc : Interface) (frame : Bytes) {v : ℕ} {t : Bool}
    → n ≤ length sw.gifc
    → port sw.gifc n ≡ ok ifc
    → frame_vlan ifc frame ≡ some (v, t)
    → is_multicast_or_broadcast (ethernet_header frame).dst ≡ true
    → handle_frame now later n frame sw
      ≡ ok (taught now sw ifc frame v, flood_frame ifc sw.gifc frame v t)
unfolding handle_frame parse_frame forward
handle_frame-group now later n sw ifc frame small p e group =
    let there : ltb (length sw.gifc) n ≡ false = ground arith in
    rw (handle_frame, there, p, parse_frame, e, forward, group) refl

module _ (time : ℕ → ℕ) (n : ℕ) (frame : Bytes) (v : ℕ) (t : Bool) where
  deliver-group :
      (r : Running) (ifc : Interface)
      → n ≢ 0
      → n ≤ length r.sw.gifc
      → port r.sw.gifc n ≡ ok ifc
      → frame_vlan ifc frame ≡ some (v, t)
      → is_multicast_or_broadcast (ethernet_header frame).dst ≡ true
      → (r' : Running) × (deliver (handlers time) (record { type = n; body = frame } ∷ []) true r
          ≡ ok (true, r'))
        × (r'.out ≡ r.out ++ flood_frame ifc r.sw.gifc frame v t)
  unfolding deliver dispatch handlers
  deliver-group r ifc some_ small p e group =
      let ran =
        handle_frame-group (time r.step) (time (r.step + 1)) n r.sw ifc frame small p e group in
      let number : (n == 0) ≡ false = ground arith in
      (
        record {
          sw = taught (time r.step) r.sw ifc frame v;
          out = r.out ++ flood_frame ifc r.sw.gifc frame v t;
          step = r.step + 2;
        },
        rw (deliver, dispatch, number, ran) refl,
        refl,
      )

sent-one :
    (n : ℕ) (frame : Bytes) {message : Bytes}
    → tsend n frame ≡ ok message
    → sent (record { type = n; body = frame } ∷ []) ≡ ok message
unfolding sent
sent-one n frame {message} e = rw (sent, e) (ap ok (append-nil message))

-- From end to end: the harness sends the switch its addresses and, with `tsend`, a frame to a group
-- on interface `n`, and the reads of the switch cut this as they like. If the switch is well-formed
-- and takes the addresses, has fewer than 32 ports, and accepts the frame for a VLAN whose ports
-- all carry it as it came, then what it writes passes `trecv` with `expect_multicast`: with the
-- mask of the other ports of the VLAN, of which there is one or more, leave to skip all but one
-- message, and a pipe that is readable until all is there, the code is 0 and no byte is left.
pub output-passes :
    (time : ℕ → ℕ) (sw : Vswitch) (chunks : List Bytes) (macs : List MacAddress) (n : ℕ)
    (frame : Bytes) {message : Bytes} {r : Running} {ifc : Interface} {v : ℕ} {t : Bool} (skip : ℕ)
    (h : Harness) (ws : List Wait)
    → IsValid sw
    → All (λ c. 0 < length c) chunks
    → All IsMac macs
    → 0 < length macs
    → header_size + length macs * mac_addr_size < 2 ^ 16
    → tsend n frame ≡ ok message
    → flatten chunks ≡ control_message macs ++ message
    → handle_macs (handlers time) 0 macs (fresh_run sw) ≡ ok r
    → length r.sw.gifc < 32
    → 0 < n
    → n ≤ length r.sw.gifc
    → port r.sw.gifc n ≡ ok ifc
    → frame_vlan ifc frame ≡ some (v, t)
    → is_multicast_or_broadcast (ethernet_header frame).dst ≡ true
    → 0 < length frame
    → length frame + header_size < 2 ^ 16
    → All (λ dst. interface_in_vlan dst v ≢ some (not t)) r.sw.gifc
    → h.child_buf ++ h.pipe ≡ output time sw chunks
    → length h.child_buf + length h.behind ≡ child_buf_size
    → All IsLive ws
    → length h.pipe ≤ length ws
    → 0 < length (receivers ifc r.sw.gifc v)
    → length (receivers ifc r.sw.gifc v) ≤ suc skip
    → skip < 2 ^ 32 - 1
    → (s : Harness × List Wait) × (trecv skip
          (multicast frame (pos (length frame)))
          (mask_of (receivers ifc r.sw.gifc v))
          h
          ws
        ≡ done 0 0 s.0 s.1)
      × Ready s.0 s.1 []
unfolding output
output-passes time sw chunks macs n frame {message} {r} {ifc} {v} {t} skip h ws valid live six
      some_macs fit sending same taken few some_n small there accepted group some_bytes short alike
      got room readable_ enough some_ports count last =
    let k = handle_macs-Taken time macs 0 (fresh_run sw) valid taken in
    let (r', ran, wrote) =
      deliver-group time n frame v t r ifc (λ z. absurd (omega (arith, z))) small there accepted
        group in
    let whole =
      tsend-deliver (handlers time) chunks macs (record { type = n; body = frame } ∷ [])
        (fresh_run sw) live six some_macs fit (omega arith) (sent-one n frame sending) same in
    let out : output time sw chunks ≡ flood_frame ifc r.sw.gifc frame v t =
      rw (output, whole, taken, ran, wrote, k.silent) refl in
    trecv-flood_frame ifc r.sw.gifc frame v t skip h ws k.valid.numbered few alike short (got ∙ out)
      room readable_ enough some_ports count last

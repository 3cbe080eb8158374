-- ===== src/Router/Arp.antt =====
-- ARP between two routers of router.c: the request, the reply, and what the other side learns.
use project_and_training_3_n.Base.{
  ◌+◌, ◌^◌, ◌≤◌, ◌<◌, ◌≡◌, refl, ◌∙◌, inl, inr, Bool-cases, le→ltb, append-nil, append_assoc, ap,
  ==_iff, htons, false, some, [], ◌++◌, Bytes, ◌==◌, ltb, if◌then◌else◌, length, ok, arith,
}
use project_and_training_3_n.Wire.{MacAddress, header_bytes}
use project_and_training_3_n.Router.{Interface, Router, eth_p_arp}
use project_and_training_3_n.Router.ArpCache.{lookup_arp_cache, add_to_arp_cache}
use project_and_training_3_n.Router.Frame.{
  ArpHeader, arp_bytes, arp_reply, arp_header_size, handle_arp, parse_frame,
}
use project_and_training_3_n.Router.Sending.{forward_frame_payload_to_lem}
use project_and_training_3_n.Router.Cache.{lookup-add}
use project_and_training_3_n.Router.ArpFrame.{
  Fits, length-arp_bytes, take_whole, arp_frame, length-arp_frame, tag-arp_frame, header-arp_frame,
}

-- An ARP frame reaches `handle_arp` with its header.
parse_frame-arp_frame :
    (r : Router) (ifc : Interface) (dst src : MacAddress) (ah : ArpHeader) (pad : Bytes)
    → length dst ≡ 6
    → length src ≡ 6
    → Fits ah
    → parse_frame r ifc (arp_frame dst src ah pad) ≡ handle_arp r ifc ah
unfolding parse_frame
parse_frame-arp_frame r ifc dst src ah pad d s f =
    let short : ltb (42 + length pad) 14 ≡ false = le→ltb (42 + length pad) 14 (omega arith) in
    let room : ltb (42 + length pad) 42 ≡ false = le→ltb (42 + length pad) 42 (omega arith) in
    rw
      (
        length-arp_frame dst src ah pad d s f,
        short,
        room,
        tag-arp_frame dst src ah pad d s f,
        header-arp_frame dst src ah pad d s f,
      )
      refl

-- The answer to a request: from the interface, to the two addresses of the sender.
abbrev pub answer : Interface → ArpHeader → ArpHeader
answer ifc ah = record ah {
  oper = 2;
  target_ha = ah.sender_ha;
  target_pa = ah.sender_pa;
  sender_ha = ifc.mac;
  sender_pa = ifc.ip;
}

-- A request in a frame whose addresses and fields have the sizes of their C types, on an interface
-- with a MAC address of six bytes and an MTU of 42 or more: if it asks for the address of the
-- interface, it is answered on it with a reply frame to the sender; if it asks for another one,
-- nothing is written. The state stays the same, and padding behind the request does not matter.
pub request-answered :
    (r : Router) (ifc : Interface) (dst src : MacAddress) (ah : ArpHeader) (pad : Bytes)
    → length dst ≡ 6
    → length src ≡ 6
    → Fits ah
    → length ifc.mac ≡ 6
    → 42 ≤ ifc.mtu
    → ah.oper ≡ 1
    → parse_frame r ifc (arp_frame dst src ah pad)
      ≡ ok (
        r,
        if ah.target_pa == ifc.ip
            then header_bytes (record { size = 46; type = ifc.ifc_num })
              ++ arp_frame ah.sender_ha ifc.mac (answer ifc ah) []
            else [],
      )
unfolding handle_arp arp_reply
request-answered r ifc dst src ah pad d s f m room request =
    parse_frame-arp_frame r ifc dst src ah pad d s f
    ∙ rw request (elim (Bool-cases (ah.target_pa == ifc.ip)) [
      | inr other ↦ rw other refl
      | inl own ↦
          let bytes = arp_bytes (answer ifc ah) in
          let n = length-arp_bytes (answer ifc ah) m f.sender_ha in
          let fits : ltb ifc.mtu 42 ≡ false = le→ltb ifc.mtu 42 room in
          let sent =
            forward_frame_payload_to_lem ifc ah.sender_ha eth_p_arp bytes arp_header_size
              f.sender_ha m in
          rw (own, append-nil, rw (fits, n, take_whole bytes arp_header_size n, n) at sent) refl
    ])

-- A router that gets an ARP reply in a frame whose addresses and fields have the sizes of their C
-- types writes nothing, and its lookup of the sender's IP address then finds the sender's MAC
-- address, if its cache has an entry at all.
pub reply-learned :
    (r : Router) (mine : Interface) (dst src : MacAddress) (ah : ArpHeader) (pad : Bytes)
    → 0 < length r.arp_cache
    → length dst ≡ 6
    → length src ≡ 6
    → Fits ah
    → ah.oper ≡ 2
    → (out : Router) × (parse_frame r mine (arp_frame dst src ah pad) ≡ ok (out, []))
      × (lookup_arp_cache out.arp_cache ah.sender_pa ≡ some ah.sender_ha)
unfolding handle_arp
reply-learned r mine dst src ah pad h d s f reply = (
  record r { arp_cache = add_to_arp_cache r.arp_cache ah.sender_pa ah.sender_ha },
  parse_frame-arp_frame r mine dst src ah pad d s f ∙ rw reply refl,
  lookup-add r.arp_cache ah.sender_pa ah.sender_ha h,
)

-- Padding behind a frame.
arp_frame-padded :
    (dst src : MacAddress) (ah : ArpHeader) (pad : Bytes)
    → arp_frame dst src ah [] ++ pad ≡ arp_frame dst src ah pad
arp_frame-padded dst src ah pad =
    append_assoc dst _ pad
    ∙ ap (◌++◌ dst) (
        append_assoc src _ pad
        ∙ ap (λ t. src ++ (htons eth_p_arp ++ t)) (append_assoc (arp_bytes ah) [] pad))

-- What one router answers, another learns. A request for the address of its interface, in a frame
-- whose addresses and fields have the sizes of their C types and on an interface with such addresses
-- and an MTU of 42 or more, makes the first router write one reply on that interface; a router that
-- gets the reply, with any padding behind it, and whose cache has an entry at all, writes nothing and
-- then finds the MAC address of the first router's interface for its IP address.
pub answer-learned :
    (asked r : Router) (ifc mine : Interface) (dst src : MacAddress) (ah : ArpHeader)
    (pad pad' : Bytes)
    → length dst ≡ 6
    → length src ≡ 6
    → Fits ah
    → length ifc.mac ≡ 6
    → ifc.ip < 2 ^ 32
    → 42 ≤ ifc.mtu
    → ah.oper ≡ 1
    → ah.target_pa ≡ ifc.ip
    → 0 < length r.arp_cache
    → (reply : Bytes) × (out : Router) × (parse_frame asked ifc (arp_frame dst src ah pad)
        ≡ ok (asked, header_bytes (record { size = 46; type = ifc.ifc_num }) ++ reply))
      × (parse_frame r mine (reply ++ pad') ≡ ok (out, []))
      × (lookup_arp_cache out.arp_cache ifc.ip ≡ some ifc.mac)
answer-learned asked r ifc mine dst src ah pad pad' d s f m small room request own h =
    let fits : Fits (answer ifc ah) = record {
      htype = f.htype;
      ptype = f.ptype;
      oper = omega arith;
      sender_ha = m;
      sender_pa = small;
      target_ha = f.sender_ha;
      target_pa = f.sender_pa;
    } in
    let (out, got, found) =
      reply-learned r mine ah.sender_ha ifc.mac (answer ifc ah) pad' h f.sender_ha m fits refl in
    (
      arp_frame ah.sender_ha ifc.mac (answer ifc ah) [],
      out,
      (rw ((==_iff ah.target_pa ifc.ip).1 own) at
          (request-answered asked ifc dst src ah pad d s f m room request)),
      ap (parse_frame r mine) (arp_frame-padded ah.sender_ha ifc.mac (answer ifc ah) pad') ∙ got,
      found,
    )

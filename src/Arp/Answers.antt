-- ===== src/Arp/Answers.antt =====
-- What arp.c makes of the ARP frames that stations send, and router.c of its replies.
use project_and_training_3_n.Base.{
  ◌+◌, ◌^◌, ◌≤◌, ◌<◌, ◌≡◌, inl, inr, refl, ap, ◌∙◌, true, false, some, [], ◌++◌, Bytes, htons,
  ntohs, htonl, ntohl, ◌%◌, ◌≢◌, append_assoc, ◌==◌, if◌then◌else◌, ltb, le→ltb, lt→ltb, Bool-cases,
  length, take, drop, append-nil, ok, err, out_of_bounds, arith,
}
use project_and_training_3_n.Wire.{MacAddress, header_bytes}
use project_and_training_3_n.Router.{Interface, Router, eth_p_arp}
use project_and_training_3_n.Router.ArpCache
use project_and_training_3_n.Router.Frame
use project_and_training_3_n.Router.Frame.{ArpHeader, arp_bytes, forward_to}
use project_and_training_3_n.Router.ArpFrame.{
  Fits, length-arp_bytes, arp_frame, length-arp_frame, tag-arp_frame, header-arp_frame,
  source-arp_frame,
}
use project_and_training_3_n.Router.Sending.{frame-length}
use project_and_training_3_n.Router.Arp.{reply-learned}
use project_and_training_3_n.Arp.{ArpTool, add_to_arp_cache, lookup_arp_cache}
use project_and_training_3_n.Arp.Cache.{lookup_arp_cache-add}
use project_and_training_3_n.Arp.Frame.{
  is_well_formed, reply_header, reply_bytes, passed_ip, passed_mac, handle_arp, parse_frame,
}

-- An ARP frame reaches the second half of `parse_frame` with its header and its source.
parse_frame-arp_frame :
    (t : ArpTool) (ifc : Interface) (dst src : MacAddress) (ah : ArpHeader) (pad : Bytes)
    → length dst ≡ 6
    → length src ≡ 6
    → Fits ah
    → parse_frame t ifc (arp_frame dst src ah pad) ≡ handle_arp t ifc src ah
unfolding parse_frame
parse_frame-arp_frame t ifc dst src ah pad d s f =
    let short : ltb (42 + length pad) 14 ≡ false = le→ltb (42 + length pad) 14 (omega arith) in
    let room : ltb (42 + length pad) 42 ≡ false = le→ltb (42 + length pad) 42 (omega arith) in
    rw
      (
        length-arp_frame dst src ah pad d s f,
        short,
        room,
        tag-arp_frame dst src ah pad d s f,
        header-arp_frame dst src ah pad d s f,
        source-arp_frame dst src ah pad d s f,
      )
      refl

-- The header that a station expects in reply.
abbrev pub answer : Interface → ArpHeader → ArpHeader
answer ifc ah = record {
  htype = 1;
  ptype = 0x0800;
  hlen = 6;
  plen = 4;
  oper = 2;
  sender_ha = ifc.mac;
  sender_pa = ifc.ip;
  target_ha = ah.sender_ha;
  target_pa = ah.sender_pa;
}

-- A header for Ethernet and IPv4.
pub record IsIpv4 (ah : ArpHeader) : Type 0 where
  pub htype : ah.htype ≡ 1
  pub ptype : ah.ptype ≡ 0x0800
  pub hlen : ah.hlen ≡ 6
  pub plen : ah.plen ≡ 4

is_well_formed-IsIpv4 : (ah : ArpHeader) → IsIpv4 ah → is_well_formed ah ≡ true
unfolding is_well_formed
is_well_formed-IsIpv4 ah v = ground (arith, v.htype, v.ptype, v.hlen, v.plen)

is_well_formed-not_IsIpv4 : (ah : ArpHeader) → ¬ IsIpv4 ah → is_well_formed ah ≡ false
unfolding is_well_formed
is_well_formed-not_IsIpv4 ah v = elim (Bool-cases (is_well_formed ah)) [
  | inr no_ipv4 ↦ no_ipv4
  | inl ipv4 ↦ absurd (
      v (record {
        htype = ground arith;
        ptype = ground arith;
        hlen = ground arith;
        plen = ground arith;
      }))
]

sent-reply :
    (ifc : Interface) (src : MacAddress) (ah : ArpHeader)
    → length src ≡ 6
    → length ifc.mac ≡ 6
    → Fits ah
    → 42 ≤ ifc.mtu
    → forward_to ifc (reply_bytes ifc src ah)
      ≡ ok (
          header_bytes (record { size = 46; type = ifc.ifc_num })
          ++ arp_frame src ifc.mac (answer ifc ah) [])
unfolding forward_to reply_bytes reply_header
sent-reply ifc src ah s m f room =
    let n = frame-length src ifc.mac eth_p_arp (arp_bytes (answer ifc ah)) s m in
    let size = length-arp_bytes (answer ifc ah) m f.sender_ha in
    let fits : ltb ifc.mtu 42 ≡ false = le→ltb ifc.mtu 42 room in
    rw (append-nil, forward_to, n, size, fits) refl

-- A request for Ethernet and IPv4 in a frame whose addresses and fields have the sizes of their C
-- types, on an interface with a MAC address of six bytes and an MTU of 42 or more: if it asks for
-- the address of the interface, a reply frame goes to the source of the request's frame; if it asks
-- for another one, nothing is written. The state stays the same.
pub parse_frame-request :
    (t : ArpTool) (ifc : Interface) (dst src : MacAddress) (ah : ArpHeader) (pad : Bytes)
    → length dst ≡ 6
    → length src ≡ 6
    → Fits ah
    → IsIpv4 ah
    → length ifc.mac ≡ 6
    → 42 ≤ ifc.mtu
    → ah.oper ≡ 1
    → parse_frame t ifc (arp_frame dst src ah pad)
      ≡ ok (
        t,
        if ah.target_pa == ifc.ip
            then header_bytes (record { size = 46; type = ifc.ifc_num })
              ++ arp_frame src ifc.mac (answer ifc ah) []
            else [],
      )
unfolding handle_arp forward_to reply_bytes reply_header
parse_frame-request t ifc dst src ah pad d s f v m room request =
    parse_frame-arp_frame t ifc dst src ah pad d s f
    ∙ rw (is_well_formed-IsIpv4 ah v, request)
        (elim (Bool-cases (ah.target_pa == ifc.ip)) [
          | inr other ↦ rw other refl
          | inl own ↦ rw (own, sent-reply ifc src ah s m f room) refl
        ])

-- A request or a reply for other hardware or another protocol is dropped.
pub parse_frame-other :
    (t : ArpTool) (ifc : Interface) (dst src : MacAddress) (ah : ArpHeader) (pad : Bytes)
    → length dst ≡ 6
    → length src ≡ 6
    → Fits ah
    → ¬ IsIpv4 ah
    → parse_frame t ifc (arp_frame dst src ah pad) ≡ ok (t, [])
unfolding handle_arp
parse_frame-other t ifc dst src ah pad d s f v =
    parse_frame-arp_frame t ifc dst src ah pad d s f ∙ rw (is_well_formed-not_IsIpv4 ah v) refl

-- A reply does not make the sender known: what is stored is the sender's IP address and the first
-- two bytes of the target's MAC address, as the MAC address for the number that the first four bytes
-- of the sender's MAC address make.
pub parse_frame-reply :
    (t : ArpTool) (ifc : Interface) (dst src : MacAddress) (ah : ArpHeader) (pad : Bytes)
    → length dst ≡ 6
    → length src ≡ 6
    → Fits ah
    → IsIpv4 ah
    → ah.oper ≡ 2
    → (out : ArpTool) × (parse_frame t ifc (arp_frame dst src ah pad) ≡ ok (out, []))
      × (lookup_arp_cache out.arp_cache (ntohl ah.sender_ha)
          ≡ some (htonl ah.sender_pa ++ take 2 ah.target_ha))
      × (ntohl ah.sender_ha % 256 ≢ ah.sender_pa % 256
          → lookup_arp_cache out.arp_cache ah.sender_pa ≡ lookup_arp_cache t.arp_cache ah.sender_pa)
unfolding handle_arp passed_ip passed_mac
parse_frame-reply t ifc dst src ah pad d s f v reply =
    let out : ArpTool = record t {
      arp_cache = add_to_arp_cache t.arp_cache (passed_ip ah) (passed_mac ah);
    } in
    (
      out,
      parse_frame-arp_frame t ifc dst src ah pad d s f
          ∙ rw (is_well_formed-IsIpv4 ah v, reply) refl,
      lookup_arp_cache-add t.arp_cache (ntohl ah.sender_ha) (ntohl ah.sender_ha) (passed_mac ah)
          ∙ ground arith,
      λ other.
          lookup_arp_cache-add t.arp_cache (ntohl ah.sender_ha) ah.sender_pa (passed_mac ah)
          ∙ ground arith,
    )

-- A frame with the type of ARP that is shorter than both headers is read behind its end.
pub parse_frame-short :
    (t : ArpTool) (ifc : Interface) (frame : Bytes)
    → 14 ≤ length frame
    → length frame < 42
    → ntohs (drop 12 frame) ≡ 0x0806
    → parse_frame t ifc frame ≡ err out_of_bounds
unfolding parse_frame
parse_frame-short t ifc frame long short tag =
    rw (le→ltb (length frame) 14 long, tag, lt→ltb (length frame) 42 short) refl

-- router.c learns from the replies of arp.c: the reply to a request with fields of the sizes of
-- their C types, sent from an interface with such addresses and with any padding behind it, leaves
-- the router with the MAC address of that interface for its IP address.
pub reply_bytes-learned :
    (r : Router) (ifc mine : Interface) (src : MacAddress) (ah : ArpHeader) (pad : Bytes)
    → 0 < length r.arp_cache
    → length src ≡ 6
    → Fits ah
    → length ifc.mac ≡ 6
    → ifc.ip < 2 ^ 32
    → (out : Router) × (Frame.parse_frame r mine (reply_bytes ifc src ah ++ pad) ≡ ok (out, []))
      × (ArpCache.lookup_arp_cache out.arp_cache ifc.ip ≡ some ifc.mac)
unfolding reply_bytes reply_header
reply_bytes-learned r ifc mine src ah pad h s f m small =
    let fits : Fits (answer ifc ah) = record {
      htype = omega arith;
      ptype = omega arith;
      oper = omega arith;
      sender_ha = m;
      sender_pa = small;
      target_ha = f.sender_ha;
      target_pa = f.sender_pa;
    } in
    let whole : reply_bytes ifc src ah ++ pad ≡ arp_frame src ifc.mac (answer ifc ah) pad =
      append_assoc src (ifc.mac ++ (htons eth_p_arp ++ arp_bytes (answer ifc ah))) pad
      ∙ ap (◌++◌ src) (append_assoc ifc.mac (htons eth_p_arp ++ arp_bytes (answer ifc ah)) pad) in
    rw whole (reply-learned r mine src ifc.mac (answer ifc ah) pad h s m fits refl)

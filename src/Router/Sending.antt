-- ===== src/Router/Sending.antt =====
-- What router.c writes for a packet that it routes.
use project_and_training_3_n.Base.{
  ℕ, ◌+◌, ◌≡◌, inl, inr, refl, false, some, ◌++◌, Bytes, htons, ltb, if◌then◌else◌, Bool-cases,
  length, length-take, length-append, take, ok, err, aborted, out_of_bounds, arith,
}
use project_and_training_3_n.Wire.{MacAddress, header_size, header_bytes}
use project_and_training_3_n.Router.{Interface, RouteEntry, Router, eth_p_ipv4}
use project_and_training_3_n.Router.ArpCache.{lookup_arp_cache}
use project_and_training_3_n.Router.Routes.{find_route}
use project_and_training_3_n.Router.Frame.{
  ethernet_header_size, ipv4_header_size, forward_to, copy, forward_frame_payload_to, interface_at,
  destination_address, route,
}

-- The message that carries an Ethernet frame with `payload` out on `ifc`.
abbrev pub message : Interface → MacAddress → ℕ → Bytes → Bytes
message ifc target_ha tag payload =
    header_bytes (record { size = header_size + (14 + length payload); type = ifc.ifc_num })
    ++ (target_ha ++ (ifc.mac ++ (htons tag ++ payload)))

pub frame-length :
    (target_ha mac : MacAddress) (tag : ℕ) (payload : Bytes)
    → length target_ha ≡ 6
    → length mac ≡ 6
    → length (target_ha ++ (mac ++ (htons tag ++ payload))) ≡ 14 + length payload
frame-length target_ha mac tag payload t m =
    rw
      (
        length-append target_ha (mac ++ (htons tag ++ payload)),
        length-append mac (htons tag ++ payload),
      )
      (omega arith)

-- `forward_frame_payload_to` on every branch, for addresses of six bytes: too large for the
-- interface, more bytes than the payload's object has, or the message with the first `size` bytes.
pub forward_frame_payload_to_lem :
    (ifc : Interface) (target_ha : MacAddress) (tag : ℕ) (object : Bytes) (size : ℕ)
    → length target_ha ≡ 6
    → length ifc.mac ≡ 6
    → forward_frame_payload_to ifc target_ha tag object size ≡ (
        if ltb ifc.mtu (size + ethernet_header_size)
        then err aborted
        else if ltb (length object) size
        then err out_of_bounds
        else ok (message ifc target_ha tag (take size object)))
unfolding forward_frame_payload_to copy forward_to
forward_frame_payload_to_lem ifc target_ha tag object size t m =
    elim (Bool-cases (ltb ifc.mtu (size + ethernet_header_size))) [
      | inl large ↦ rw large refl
      | inr fits ↦ elim (Bool-cases (ltb (length object) size)) [
        | inl past ↦ rw (fits, past) refl
        | inr within ↦
            let payload = take size object in
            let frame = target_ha ++ (ifc.mac ++ (htons tag ++ payload)) in
            let n : length frame ≡ 14 + length payload =
              frame-length target_ha ifc.mac tag payload t m in
            let small : ltb ifc.mtu (length frame) ≡ false =
              ground (arith, n, length-take size object) in
            rw (fits, within, forward_frame_payload_to, copy, forward_to, small, n) refl
      ]
    ]

-- `route` on every branch, for an IP header of 20 bytes whose destination has a route with its next
-- hop in the cache and its interface in the program, with MAC addresses of six bytes: more
-- than the interface takes aborts the program; less, but more than 20 bytes behind the IP header,
-- reads past that header; up to 20 bytes, the message has the first bytes of the IP header alone.
pub route_lem :
    (r : Router) (ip : Bytes) (n : ℕ) {e : RouteEntry} {mac : MacAddress} {ifc : Interface}
    → length ip ≡ ipv4_header_size
    → length mac ≡ 6
    → length ifc.mac ≡ 6
    → find_route r.route_table (destination_address ip) ≡ some e
    → lookup_arp_cache r.arp_cache e.next_hop ≡ some mac
    → interface_at r.gifc e.ifc ≡ ok ifc
    → route r ip n ≡ (
        if ltb ifc.mtu (n + ethernet_header_size)
        then err aborted
        else if ltb ipv4_header_size n
        then err out_of_bounds
        else ok (message ifc mac eth_p_ipv4 (take n ip)))
unfolding route
route_lem r ip n {e} {mac} {ifc} size l m found hop at_i =
    let sent = forward_frame_payload_to_lem ifc mac eth_p_ipv4 ip n l m in
    rw (found, route) (rw hop (rw at_i (rw size at sent)))

-- ===== src/Router/Frame.antt =====
-- How router.c handles a frame: `forward_to` up to `handle_frame`, and `handle_mac`.
use project_and_training_3_n.Base.{
  ℕ, zero, suc, ◌+◌, ◌-◌, none, some, List, [], ◌∷◌, ◌++◌, Bytes, htons, ntohs, htonl, ntohl, ◌==◌,
  ltb, if◌then◌else◌, length, get_elem?, set, take, drop, Result, ok, err, aborted, out_of_bounds,
  ◌>>=◌,
}
use project_and_training_3_n.Wire.{MacAddress, header_size, header_bytes}
use project_and_training_3_n.Router.{InAddr, Interface, Router, eth_p_ipv4, eth_p_arp}
use project_and_training_3_n.Router.ArpCache.{lookup_arp_cache, add_to_arp_cache}
use project_and_training_3_n.Router.Routes.{find_route}

-- `sizeof (struct EthernetHeader)`, `sizeof (struct IPv4Header)`,
-- `sizeof (struct ArpHeaderEthernetIPv4)`
abbrev pub ethernet_header_size : ℕ
ethernet_header_size = 14

abbrev pub ipv4_header_size : ℕ
ipv4_header_size = 20

abbrev pub arp_header_size : ℕ
arp_header_size = 28

-- `struct ArpHeaderEthernetIPv4`, its numbers as the host reads them.
pub record ArpHeader : Type 0 where
  pub htype : ℕ
  pub ptype : ℕ
  pub hlen : ℕ
  pub plen : ℕ
  pub oper : ℕ
  pub sender_ha : MacAddress
  pub sender_pa : InAddr
  pub target_ha : MacAddress
  pub target_pa : InAddr

abbrev byte : Bytes → ℕ
byte [] = 0
byte (b ∷ _) = b

-- `memcpy (&ah, ..., sizeof (ah))`
unfoldable pub arp_header : Bytes → ArpHeader
arp_header b = record {
  htype = ntohs b;
  ptype = ntohs (drop 2 b);
  hlen = byte (drop 4 b);
  plen = byte (drop 5 b);
  oper = ntohs (drop 6 b);
  sender_ha = take 6 (drop 8 b);
  sender_pa = ntohl (drop 14 b);
  target_ha = take 6 (drop 18 b);
  target_pa = ntohl (drop 24 b);
}

-- The bytes of the packed structure.
unfoldable pub arp_bytes : ArpHeader → Bytes
arp_bytes ah =
    htons ah.htype
    ++ (htons ah.ptype
        ++ (ah.hlen
            ∷ ah.plen
            ∷ (htons ah.oper
                ++ (ah.sender_ha ++ (htonl ah.sender_pa ++ (ah.target_ha ++ htonl ah.target_pa))))))

-- What the call writes.
unfoldable pub forward_to : Interface → Bytes → Result Bytes
forward_to dst frame =
    if ltb dst.mtu (length frame)
    then err aborted
    else ok
        (header_bytes (record { size = header_size + length frame; type = dst.ifc_num }) ++ frame)

-- `memcpy` of `size` bytes from the start of the object `from`.
unfoldable pub copy : Bytes → ℕ → Result Bytes
copy from size = if ltb (length from) size then err out_of_bounds else ok (take size from)

-- The pointer `frame_payload` is the object it points to, of which `size` bytes are copied.
unfoldable pub forward_frame_payload_to : Interface → MacAddress → ℕ → Bytes → ℕ → Result Bytes
forward_frame_payload_to ifc target_ha tag frame_payload size =
    if ltb ifc.mtu (size + ethernet_header_size) then err aborted else (do
      payload ← copy frame_payload size
      forward_to ifc (target_ha ++ (ifc.mac ++ (htons tag ++ payload))))

-- `gifc[i]`
unfoldable pub interface_at : List Interface → ℕ → Result Interface
interface_at gifc i = elim (get_elem? gifc i) [ some ifc ↦ ok ifc | none ↦ err out_of_bounds ]

-- `ip->destination_address`
unfoldable pub destination_address : Bytes → InAddr
destination_address ip = ntohl (drop 16 ip)

-- `ip` is the header, `payload_size` the size of what followed it in the frame. The table and the
-- cache are only read.
unfoldable pub route : Router → Bytes → ℕ → Result Bytes
route r ip payload_size = elim (find_route r.route_table (destination_address ip)) [
  | none ↦ ok []
  | some e ↦ elim (lookup_arp_cache r.arp_cache e.next_hop) [
    | none ↦ ok []
    | some next_hop_mac ↦ do
      ifc ← interface_at r.gifc e.ifc
      forward_frame_payload_to ifc next_hop_mac eth_p_ipv4 ip payload_size
  ]
]

-- The reply to a request.
unfoldable pub arp_reply : Interface → ArpHeader → ArpHeader
arp_reply ifc ah = record {
  htype = ah.htype;
  ptype = ah.ptype;
  hlen = ah.hlen;
  plen = ah.plen;
  oper = 2;
  sender_ha = ifc.mac;
  sender_pa = ifc.ip;
  target_ha = ah.sender_ha;
  target_pa = ah.sender_pa;
}

unfoldable pub handle_arp : Router → Interface → ArpHeader → Result (Router × Bytes)
handle_arp r ifc ah =
    if ah.oper == 1
    then if ah.target_pa == ifc.ip
      then (do
        out ←
            forward_frame_payload_to ifc ah.sender_ha eth_p_arp (arp_bytes (arp_reply ifc ah))
              arp_header_size
        ok (r, out))
      else ok (r, [])
    else if ah.oper == 2
    then ok (record r { arp_cache = add_to_arp_cache r.arp_cache ah.sender_pa ah.sender_ha }, [])
    else ok (r, [])

-- The case `ETH_P_IPV4`, for the frame behind the Ethernet header.
unfoldable pub handle_ipv4 : Router → Bytes → Result (Router × Bytes)
handle_ipv4 r packet = if ltb (length packet) ipv4_header_size then ok (r, []) else (do
  out ← route r (take ipv4_header_size packet) (length packet - ipv4_header_size)
  ok (r, out))

unfoldable pub parse_frame : Router → Interface → Bytes → Result (Router × Bytes)
parse_frame r ifc frame =
    let tag = ntohs (drop 12 frame) in
    if ltb (length frame) ethernet_header_size
    then ok (r, [])
    else if tag == eth_p_ipv4
    then handle_ipv4 r (drop ethernet_header_size frame)
    else if tag == eth_p_arp
    then if ltb (length frame) (ethernet_header_size + arp_header_size)
      then ok (r, [])
      else handle_arp r ifc (arp_header (take arp_header_size (drop ethernet_header_size frame)))
    else ok (r, [])

-- `gifc[n - 1]`
unfoldable pub port : List Interface → ℕ → Result Interface
unfolding interface_at
port gifc zero = err out_of_bounds
port gifc (suc i) = interface_at gifc i

unfoldable pub handle_frame : ℕ → Bytes → Router → Result (Router × Bytes)
unfolding port
handle_frame interface frame r =
    if ltb (length r.gifc) interface
    then err aborted
    else (do ifc ← port r.gifc interface; parse_frame r ifc frame)

-- The store of `mac` in the interface number `n`.
unfoldable pub set_mac : List Interface → ℕ → MacAddress → Result (List Interface)
set_mac gifc zero mac = err out_of_bounds
set_mac gifc (suc i) mac = elim (get_elem? gifc i) [
  | some ifc ↦ ok (set gifc i (record ifc { mac = mac }))
  | none ↦ err out_of_bounds
]

unfoldable pub handle_mac : ℕ → MacAddress → Router → Result Router
unfolding set_mac
handle_mac ifc_num mac r =
    if ltb (length r.gifc) ifc_num
    then err aborted
    else (do gifc ← set_mac r.gifc ifc_num mac; ok (record r { gifc = gifc }))

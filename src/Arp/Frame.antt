-- ===== src/Arp/Frame.antt =====
-- How arp.c handles a frame, a command and an address. `forward_to` is that of router.c, and the
-- Ethernet header is read and written in place.
use project_and_training_3_n.Base.{
  ℕ, ◌+◌, Bool, not, ◌&&◌, List, [], ◌∷◌, ◌++◌, Bytes, htons, ntohs, htonl, ntohl, ◌==◌, ltb,
  if◌then◌else◌, length, take, drop, Result, ok, err, aborted, out_of_bounds, ◌>>=◌,
}
use project_and_training_3_n.Wire.{MacAddress, mac_addr_size}
use project_and_training_3_n.Wire.Loop.{Handlers}
use project_and_training_3_n.Libc.{strtok}
use project_and_training_3_n.Router.{InAddr, Interface, eth_p_arp}
use project_and_training_3_n.Router.Frame.{
  ethernet_header_size, arp_header_size, ArpHeader, arp_header, arp_bytes, forward_to, port,
  set_mac,
}
use project_and_training_3_n.Router.Command.{command_text}
use project_and_training_3_n.Arp.{ArpTool, add_to_arp_cache}

-- The test of the header's fields.
unfoldable pub is_well_formed : ArpHeader → Bool
is_well_formed ah =
    ah.htype == 1 && (ah.ptype == 0x0800 && (ah.hlen == mac_addr_size && ah.plen == 4))

-- `reply_ah`
unfoldable pub reply_header : Interface → ArpHeader → ArpHeader
reply_header ifc ah = record {
  htype = 1;
  ptype = 0x0800;
  hlen = mac_addr_size;
  plen = 4;
  oper = 2;
  sender_ha = ifc.mac;
  sender_pa = ifc.ip;
  target_ha = ah.sender_ha;
  target_pa = ah.sender_pa;
}

-- `reply_frame`; `src` is the source of the request's frame.
unfoldable pub reply_bytes : Interface → MacAddress → ArpHeader → Bytes
reply_bytes ifc src ah = src ++ (ifc.mac ++ (htons eth_p_arp ++ arp_bytes (reply_header ifc ah)))

-- What `add_to_arp_cache (&ah.sender_ha, &ah.sender_pa)` reads as the address: four bytes from the
-- start of `sender_ha`.
unfoldable pub passed_ip : ArpHeader → InAddr
passed_ip ah = ntohl ah.sender_ha

-- What it reads as the MAC address: six bytes from the start of `sender_pa`, the last two of which
-- stand in `target_ha`.
unfoldable pub passed_mac : ArpHeader → MacAddress
passed_mac ah = htonl ah.sender_pa ++ take 2 ah.target_ha

-- Behind the copy of the ARP header.
unfoldable pub handle_arp : ArpTool → Interface → MacAddress → ArpHeader → Result (ArpTool × Bytes)
handle_arp t ifc src ah =
    if not (is_well_formed ah)
    then ok (t, [])
    else if ah.oper == 1
    then if ah.target_pa == ifc.ip
      then (do out ← forward_to ifc (reply_bytes ifc src ah); ok (t, out))
      else ok (t, [])
    else if ah.oper == 2
    then ok
        (record t { arp_cache = add_to_arp_cache t.arp_cache (passed_ip ah) (passed_mac ah) }, [])
    else ok (t, [])

-- The copy of the ARP header is not guarded: it reads behind a frame that is too short.
unfoldable pub parse_frame : ArpTool → Interface → Bytes → Result (ArpTool × Bytes)
parse_frame t ifc frame =
    if ltb (length frame) ethernet_header_size
    then ok (t, [])
    else if not (ntohs (drop 12 frame) == eth_p_arp)
    then ok (t, [])
    else if ltb (length frame) (ethernet_header_size + arp_header_size)
    then err out_of_bounds
    else handle_arp t ifc (take 6 (drop 6 frame))
        (arp_header (take arp_header_size (drop ethernet_header_size frame)))

unfoldable pub handle_frame : ℕ → Bytes → ArpTool → Result (ArpTool × Bytes)
handle_frame interface frame t =
    if ltb (length t.gifc) interface
    then err aborted
    else (do ifc ← port t.gifc interface; parse_frame t ifc frame)

unfoldable pub handle_mac : ℕ → MacAddress → ArpTool → Result ArpTool
handle_mac ifc_num mac t =
    if ltb (length t.gifc) ifc_num
    then err aborted
    else (do gifc ← set_mac t.gifc ifc_num mac; ok (record t { gifc = gifc }))

-- With no token, `strcasecmp` reads a null pointer. No command changes the state.
unfoldable pub process_cmd : ArpTool → List Bytes → Result ArpTool
process_cmd t [] = err out_of_bounds
process_cmd t (tok ∷ toks) = ok t

unfoldable pub handle_control : Bytes → ArpTool → Result ArpTool
unfolding process_cmd
handle_control cmd t = do text ← command_text cmd; process_cmd t (strtok b' ' text)

-- The program between two callbacks: its state and all that it wrote.
pub record Running : Type 0 where
  pub tool : ArpTool
  pub out : Bytes

-- The callbacks that `main` passes to `loop`.
unfoldable pub handlers : Handlers Running
handlers = record {
  frame = λ interface frame s. do
    (t, bytes) ← handle_frame interface frame s.tool
    ok (record { tool = t; out = s.out ++ bytes });
  control = λ cmd s. do
    t ← handle_control cmd s.tool
    ok (record s { tool = t });
  mac = λ ifc_num mac s. do
    t ← handle_mac ifc_num mac s.tool
    ok (record s { tool = t });
}

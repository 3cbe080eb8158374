-- ===== src/Vswitch/Frame.antt =====
-- `parse_frame` and the callbacks of vswitch.c.
use project_and_training_3_n.Base.{
  ◌∷◌, [], ℕ, zero, suc, ◌+◌, Bool, true, false, Option, none, some, List, [], ◌++◌, Bytes, ntohs,
  bit_and, ◌==◌, ltb, if◌then◌else◌, length, get_elem?, set, take, drop, Result, ok, err, aborted,
  out_of_bounds, ◌>>=◌,
}
use project_and_training_3_n.Wire.{MacAddress}
use project_and_training_3_n.Wire.Loop.{Handlers}
use project_and_training_3_n.Vswitch.{Interface, Vswitch, eth_802_1q_tag}
use project_and_training_3_n.Vswitch.Table.{is_multicast_or_broadcast, learn_mac, lookup_mac}
use project_and_training_3_n.Vswitch.Forward.{interface_in_vlan, forward_frame, flood_frame}

-- `struct EthernetHeader`, `tag` as `ntohs` reads it.
pub record EthernetHeader : Type 0 where
  pub dst : MacAddress
  pub src : MacAddress
  pub tag : ℕ

-- `memcpy (&eh, frame, sizeof (eh))`
abbrev pub ethernet_header : Bytes → EthernetHeader
ethernet_header frame = record {
  dst = take 6 frame;
  src = take 6 (drop 6 frame);
  tag = ntohs (drop 12 frame);
}

-- `sizeof (struct EthernetHeader)`, `sizeof (struct TaggedEthernetHeader)`
abbrev pub ethernet_header_size : ℕ
ethernet_header_size = 14

abbrev pub tagged_ethernet_header_size : ℕ
tagged_ethernet_header_size = 18

-- `vlan_id` of a tagged frame: the low bits of `ntohs (teh->tci)`.
unfoldable pub tci_vlan : Bytes → ℕ
tci_vlan frame = bit_and (ntohs (drop 14 frame)) 0x0fff

-- Steps 1 to 3 of `parse_frame`: `vlan_id` and `frame_is_tagged`, or `none` for a dropped frame.
unfoldable pub frame_vlan : Interface → Bytes → Option (ℕ × Bool)
frame_vlan ifc frame =
    if ltb (length frame) ethernet_header_size
    then none
    else if (ethernet_header frame).tag == eth_802_1q_tag
    then if ltb (length frame) tagged_ethernet_header_size
      then none
      else elim (interface_in_vlan ifc (tci_vlan frame)) [
        | some true ↦ some (tci_vlan frame, true)
        | some false ↦ none
        | none ↦ none
      ]
    else elim ifc.untagged_vlan [ none ↦ none | some vlan_id ↦ some (vlan_id, false) ]

-- `gifc[n - 1]`
unfoldable pub port : List Interface → ℕ → Result Interface
port gifc zero = err out_of_bounds
port gifc (suc i) = elim (get_elem? gifc i) [ some ifc ↦ ok ifc | none ↦ err out_of_bounds ]

-- Step 5, in the table that step 4 left: the state and what is written.
unfoldable pub forward : ℕ → Vswitch → Interface → Bytes → ℕ → Bool → Result (Vswitch × Bytes)
forward later sw ifc frame vlan_id frame_is_tagged =
    let eh = ethernet_header frame in
    let flood = flood_frame ifc sw.gifc frame vlan_id frame_is_tagged in
    if is_multicast_or_broadcast eh.dst
    then ok (sw, flood)
    else (let (table, found) = lookup_mac later sw.mac_table eh.dst vlan_id in
        let sw' : Vswitch = record { gifc = sw.gifc; mac_table = table } in
        elim found [
          | some dst_ifc_num ↦ do
            dst ← port sw.gifc dst_ifc_num
            ok (sw', forward_frame ifc dst frame vlan_id frame_is_tagged)
          | none ↦ ok (sw', flood)
        ])

-- `now` and `later` are what `time (NULL)` returns in `learn_mac` and in `lookup_mac`.
unfoldable pub parse_frame : ℕ → ℕ → Vswitch → Interface → Bytes → Result (Vswitch × Bytes)
parse_frame now later sw ifc frame = elim (frame_vlan ifc frame) [
  | none ↦ ok (sw, [])
  | some (vlan_id, frame_is_tagged) ↦
      forward later
        (record {
          gifc = sw.gifc;
          mac_table = learn_mac now sw.mac_table (ethernet_header frame).src ifc.ifc_num vlan_id;
        })
        ifc frame vlan_id frame_is_tagged
]

unfoldable pub handle_frame : ℕ → ℕ → ℕ → Bytes → Vswitch → Result (Vswitch × Bytes)
handle_frame now later interface frame sw =
    if ltb (length sw.gifc) interface
    then err aborted
    else (do ifc ← port sw.gifc interface; parse_frame now later sw ifc frame)

-- The store of `mac` in the interface number `ifc_num`.
unfoldable pub set_mac : List Interface → ℕ → MacAddress → Result (List Interface)
set_mac gifc zero mac = err out_of_bounds
set_mac gifc (suc i) mac = elim (get_elem? gifc i) [
  | some ifc ↦ ok (set gifc i (record ifc { mac = mac }))
  | none ↦ err out_of_bounds
]

unfoldable pub handle_mac : ℕ → MacAddress → Vswitch → Result Vswitch
unfolding set_mac
handle_mac ifc_num mac sw =
    if ltb (length sw.gifc) ifc_num
    then err aborted
    else (do gifc ← set_mac sw.gifc ifc_num mac; ok (record sw { gifc = gifc }))

-- The last byte of the message is overwritten by the terminator of the text that goes to the standard
-- error. With no byte, the code writes in front of the message and reads what stands behind it;
-- that is a fault here.
unfoldable pub handle_control : Bytes → Vswitch → Result Vswitch
handle_control [] sw = err out_of_bounds
handle_control (c ∷ cmd) sw = ok sw

-- The program between two callbacks: its state, all that it wrote, and the step of the clock.
pub record Running : Type 0 where
  pub sw : Vswitch
  pub out : Bytes
  pub step : ℕ

-- The callbacks that `main` passes to `loop`; `time i` is what the clock shows at step `i`: a frame
-- takes two steps, one for the learning and one for the lookup.
unfoldable pub handlers : (ℕ → ℕ) → Handlers Running
unfolding handle_control
handlers time = record {
  frame = λ interface frame r. do
    (sw', bytes) ← handle_frame (time r.step) (time (r.step + 1)) interface frame r.sw
    ok (record { sw = sw'; out = r.out ++ bytes; step = r.step + 2 });
  control = λ cmd r. do
    sw' ← handle_control cmd r.sw
    ok (record r { sw = sw' });
  mac = λ ifc_num mac r. do
    sw' ← handle_mac ifc_num mac r.sw
    ok (record r { sw = sw' });
}

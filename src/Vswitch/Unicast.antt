-- ===== src/Vswitch/Unicast.antt =====
-- A station that was heard is reached on its port alone.
use project_and_training_3_n.Base.{
  ℕ, ◌-◌, ◌≤◌, ◌≡◌, ◌≢◌, refl, ◌∙◌, Bool, false, some, [], ◌∷◌, Bytes, le→ltb, ok,
}
use project_and_training_3_n.Wire.{MacAddress}
use project_and_training_3_n.Vswitch.{Interface, Vswitch, mac_aging_time}
use project_and_training_3_n.Vswitch.Table.{
  mac_hash, is_multicast_or_broadcast, learn_mac, lookup_mac,
}
use project_and_training_3_n.Vswitch.Forward.{forward_frame}
use project_and_training_3_n.Vswitch.Frame.{frame_vlan, ethernet_header, port, forward, parse_frame}
use project_and_training_3_n.Vswitch.Learning.{lookup-learn, lookup-learn_other}
use project_and_training_3_n.Vswitch.Invariant.{taught}
use project_and_training_3_n.Vswitch.Isolation.{
  Delivers, receivers, forward_frame-Delivers, port-get_elem?,
}

-- The answer of the second lookup, when the table knows the address.
forward_known :
    (later : ℕ) (sw : Vswitch) (ifc dst : Interface) (frame : Bytes) (v n : ℕ) (t : Bool)
    → is_multicast_or_broadcast (ethernet_header frame).dst ≡ false
    → (lookup_mac later sw.mac_table (ethernet_header frame).dst v).1 ≡ some n
    → port sw.gifc n ≡ ok dst
    → (sw' : Vswitch) × (forward later sw ifc frame v t ≡ ok (sw', forward_frame ifc dst frame v t))
      × (sw'.gifc ≡ sw.gifc)
unfolding forward
forward_known later sw ifc dst frame v n t single known there = (
  record {
    gifc = sw.gifc;
    mac_table = (lookup_mac later sw.mac_table (ethernet_header frame).dst v).0;
  },
  rw (single, known, there) refl,
  refl,
)

-- A station with address `mac` was just learned at `here`, in VLAN `v`. A frame to it, accepted in
-- the same VLAN within 300 seconds from a source that does not share its hash, is written to
-- the port of the station alone, and to no port if it came from there.
pub parse_frame-learned :
    (before now later : ℕ) (sw : Vswitch) (here ifc : Interface) (frame : Bytes) (mac : MacAddress)
    {v : ℕ} {t : Bool}
    → port sw.gifc here.ifc_num ≡ ok here
    → is_multicast_or_broadcast mac ≡ false
    → (ethernet_header frame).dst ≡ mac
    → mac_hash (ethernet_header frame).src ≢ mac_hash mac
    → later - before ≤ mac_aging_time
    → frame_vlan ifc frame ≡ some (v, t)
    → let known : Vswitch = record {
      gifc = sw.gifc;
      mac_table = learn_mac before sw.mac_table mac here.ifc_num v;
    } in
      (r : Vswitch × Bytes) × (parse_frame now later known ifc frame ≡ ok r)
      × Delivers ifc sw.gifc frame v t r.1 (receivers ifc (here ∷ []) v)
unfolding parse_frame
parse_frame-learned before now later sw here ifc frame mac {v} {t} at_here single to_it other fresh
      e =
    let known : Vswitch = record {
      gifc = sw.gifc;
      mac_table = learn_mac before sw.mac_table mac here.ifc_num v;
    } in
    let hash : mac_hash (ethernet_header frame).src ≢ mac_hash (ethernet_header frame).dst =
      rw to_it other in
    let group : is_multicast_or_broadcast (ethernet_header frame).dst ≡ false = rw to_it single in
    let found : (lookup_mac later known.mac_table (ethernet_header frame).dst v).1
        ≡ some here.ifc_num =
      rw
        (
          to_it,
          lookup-learn before later sw.mac_table mac here.ifc_num v single,
          le→ltb mac_aging_time (later - before) fresh,
        )
        refl in
    let (sw', ran, _) =
      forward_known later (taught now known ifc frame v) ifc here frame v here.ifc_num t group
        (lookup-learn_other now later known.mac_table (ethernet_header frame).src
            (ethernet_header frame).dst ifc.ifc_num v v hash
          ∙ found)
        at_here in
    let (i, there) = port-get_elem? sw.gifc here.ifc_num at_here in
    (
      (sw', forward_frame ifc here frame v t),
      rw (e, parse_frame) ran,
      forward_frame-Delivers ifc frame v t sw.gifc i here there,
    )

-- ===== src/Vswitch/Forward.antt =====
-- Which ports a frame goes out on, and with which header: vswitch.c.
use project_and_training_3_n.Base.{
  ℕ, ◌+◌, Bool, true, false, not, ◌&&◌, ◌||◌, Option, none, some, List, [], ◌∷◌, ◌++◌, Bytes, htons,
  bit_and, ◌==◌, if◌then◌else◌, length, take, drop,
}
use project_and_training_3_n.Wire.{header_size, header_bytes}
use project_and_training_3_n.Vswitch.{Interface, eth_802_1q_tag}

abbrev is_vlan : Option ℕ → ℕ → Bool
is_vlan none vlan_id = false
is_vlan (some v) vlan_id = v == vlan_id

-- The loop over `tagged_vlans`.
unfoldable pub has_vlan : List ℕ → ℕ → Bool
has_vlan [] vlan_id = false
has_vlan (v ∷ vs) vlan_id = v == vlan_id || has_vlan vs vlan_id

-- `none` for a return of 0, else the value of `*tagged`.
unfoldable pub interface_in_vlan : Interface → ℕ → Option Bool
interface_in_vlan ifc vlan_id =
    if is_vlan ifc.untagged_vlan vlan_id
    then some false
    else if has_vlan ifc.tagged_vlans vlan_id
    then some true
    else none

-- What goes to `write_all`, header and frame.
unfoldable pub send_frame : ℕ → Bytes → Bytes
send_frame ifc_num frame =
    header_bytes (record { size = header_size + length frame; type = ifc_num }) ++ frame

-- Tagged to untagged: the four bytes behind the addresses are left out.
unfoldable pub remove_tag : Bytes → Bytes
remove_tag frame = take 12 frame ++ drop 16 frame

-- `struct Q` in network order.
unfoldable pub vlan_tag : ℕ → Bytes
vlan_tag vlan_id = htons eth_802_1q_tag ++ htons (bit_and vlan_id 0x0fff)

-- Untagged to tagged: a `struct Q` behind the addresses.
unfoldable pub add_tag : ℕ → Bytes → Bytes
add_tag vlan_id frame = take 12 frame ++ (vlan_tag vlan_id ++ drop 12 frame)

-- The three cases of step 3.
unfoldable pub retag : Bool → Bool → ℕ → Bytes → Bytes
retag frame_is_tagged dst_needs_tag vlan_id frame =
    if frame_is_tagged && not dst_needs_tag
    then remove_tag frame
    else if not frame_is_tagged && dst_needs_tag
    then add_tag vlan_id frame
    else frame

-- What the call writes, no bytes if it returns early.
unfoldable pub forward_frame : Interface → Interface → Bytes → ℕ → Bool → Bytes
forward_frame src_ifc dst_ifc frame vlan_id frame_is_tagged =
    elim (interface_in_vlan dst_ifc vlan_id) [
      | none ↦ []
      | some dst_needs_tag ↦
          if src_ifc.ifc_num == dst_ifc.ifc_num
          then []
          else send_frame dst_ifc.ifc_num (retag frame_is_tagged dst_needs_tag vlan_id frame)
    ]

-- The list is `gifc`, from the loop's index on.
unfoldable pub flood_frame : Interface → List Interface → Bytes → ℕ → Bool → Bytes
flood_frame src_ifc [] frame vlan_id frame_is_tagged = []
flood_frame src_ifc (dst ∷ gifc) frame vlan_id frame_is_tagged =
    forward_frame src_ifc dst frame vlan_id frame_is_tagged
    ++ flood_frame src_ifc gifc frame vlan_id frame_is_tagged

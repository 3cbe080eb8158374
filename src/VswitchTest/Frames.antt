-- ===== src/VswitchTest/Frames.antt =====
-- The frames of the tests, as the switch reads and changes them.
use project_and_training_3_n.Base.{
  ℕ, ◌^◌, ◌<◌, ◌≡◌, refl, sym, ap, ◌∙◌, ◌++◌, Bytes, htons, bit_and, length, take, drop,
  take_append, drop_append, length-append, append_assoc, drop-drop, ntohs-htons, arith,
}
use project_and_training_3_n.Wire.{mac_addr_size, MacAddress}
use project_and_training_3_n.Vswitch.{eth_802_1q_tag}
use project_and_training_3_n.Vswitch.Forward.{remove_tag, vlan_tag, add_tag}
use project_and_training_3_n.Vswitch.Frame.{ethernet_header}
use project_and_training_3_n.VswitchTest.{build_frame, build_tagged_frame}

-- Two addresses in front of something.
two_macs :
    (dst src rest : Bytes)
    → length dst ≡ mac_addr_size
    → length src ≡ mac_addr_size
    → (take 12 (dst ++ (src ++ rest)) ≡ dst ++ src) × (drop 12 (dst ++ (src ++ rest)) ≡ rest)
two_macs dst src rest six six' =
    let both : length (dst ++ src) ≡ 12 = length-append dst src ∙ omega arith in
    rw (← append_assoc dst src rest)
      (take_append (dst ++ src) rest 12 both, drop_append (dst ++ src) rest 12 both)

-- The switch undoes what `build_tagged_frame` adds to `build_frame`, and adds the same itself: its
-- `remove_tag` makes the plain frame of the tagged one, and its `add_tag` the tagged of the plain
-- one, for any addresses of six bytes, VLAN, type and payload; and it reads the addresses and the
-- type of a plain frame as they were given, if the type fits.
pub build_tagged_frame-remove_tag :
    (dst src : MacAddress) (vlan_id ethertype : ℕ) (payload : Bytes)
    → length dst ≡ mac_addr_size
    → length src ≡ mac_addr_size
    → ethertype < 2 ^ 16
    → (remove_tag (build_tagged_frame dst src vlan_id ethertype payload)
        ≡ build_frame dst src ethertype payload)
      × (add_tag vlan_id (build_frame dst src ethertype payload)
          ≡ build_tagged_frame dst src vlan_id ethertype payload)
      × (ethernet_header (build_frame dst src ethertype payload)
          ≡ record { dst = dst; src = src; tag = ethertype })
unfolding remove_tag add_tag vlan_tag build_frame build_tagged_frame
build_tagged_frame-remove_tag dst src vlan_id ethertype payload six six' small =
    let plain = htons ethertype ++ payload in
    let tail = htons eth_802_1q_tag ++ (htons (bit_and vlan_id 0x0fff) ++ plain) in
    let (front, behind) = two_macs dst src tail six six' in
    let (front', behind') = two_macs dst src plain six six' in
    let untagged : drop 16 (dst ++ (src ++ tail)) ≡ plain =
      sym (drop-drop 12 4 (dst ++ (src ++ tail))) ∙ ap (drop 4) behind in
    (
      rw (front, untagged) (append_assoc dst src plain),
      rw (front', behind') (append_assoc dst src tail),
      rw
          (
            take_append dst (src ++ plain) 6 six,
            drop_append dst (src ++ plain) 6 six,
            take_append src plain 6 six',
            behind',
            ntohs-htons ethertype payload small,
          )
          refl,
    )

-- ===== src/Router/ArpFrame.antt =====
-- The bytes of an ARP frame, and what router.c reads from them.
use project_and_training_3_n.Base.{
  ℕ, ◌+◌, ◌*◌, ◌/◌, ◌%◌, ◌^◌, ◌<◌, ◌≡◌, sym, ap, ◌∙◌, append-nil, [], ◌++◌, Bytes, htons, ntohs,
  htonl, ntohl, ntohl-htonl, length, length-append, take, drop, take_append, drop_append, drop-drop,
  arith,
}
use project_and_training_3_n.Wire.{MacAddress}
use project_and_training_3_n.Router.{InAddr, eth_p_arp}
use project_and_training_3_n.Router.Frame.{ArpHeader, arp_header, arp_bytes, arp_header_size}

-- Every field has the values of its C type.
pub record Fits (ah : ArpHeader) : Type 0 where
  pub htype : ah.htype < 2 ^ 16
  pub ptype : ah.ptype < 2 ^ 16
  pub oper : ah.oper < 2 ^ 16
  pub sender_ha : length ah.sender_ha ≡ 6
  pub sender_pa : ah.sender_pa < 2 ^ 32
  pub target_ha : length ah.target_ha ≡ 6
  pub target_pa : ah.target_pa < 2 ^ 32

-- What stands behind the two addresses of the sender.
behind-sender :
    (ha : MacAddress) (pa : InAddr) (rest : Bytes)
    → length ha ≡ 6
    → drop 10 (ha ++ (htonl pa ++ rest)) ≡ rest
behind-sender ha pa rest h =
    sym (drop-drop 6 4 (ha ++ (htonl pa ++ rest)))
    ∙ ap (drop 4) (drop_append ha (htonl pa ++ rest) 6 h)

behind-target :
    (ha : MacAddress) (pa : InAddr) (ta rest : Bytes)
    → length ha ≡ 6
    → length ta ≡ 6
    → drop 16 (ha ++ (htonl pa ++ (ta ++ rest))) ≡ rest
behind-target ha pa ta rest h t =
    sym (drop-drop 10 6 (ha ++ (htonl pa ++ (ta ++ rest))))
    ∙ (ap (drop 6) (behind-sender ha pa (ta ++ rest) h) ∙ drop_append ta rest 6 t)

pub take_whole : (b : Bytes) (n : ℕ) → length b ≡ n → take n b ≡ b
take_whole b n h = ap (take n) (sym (append-nil b)) ∙ take_append b [] n h

-- Reading the packed structure gives back the header that was written, if every field has a value
-- of its C type.
pub arp_header-arp_bytes : (ah : ArpHeader) → Fits ah → arp_header (arp_bytes ah) ≡ ah
unfolding arp_header arp_bytes
arp_header-arp_bytes ah f =
    let pa = htonl ah.sender_pa ++ (ah.target_ha ++ htonl ah.target_pa) in
    let htype : ah.htype / 256 % 256 * 256 + ah.htype % 256 ≡ ah.htype = omega (arith, f.htype) in
    let ptype : ah.ptype / 256 % 256 * 256 + ah.ptype % 256 ≡ ah.ptype = omega (arith, f.ptype) in
    let oper : ah.oper / 256 % 256 * 256 + ah.oper % 256 ≡ ah.oper = omega (arith, f.oper) in
    let sender_ha = take_append ah.sender_ha pa 6 f.sender_ha in
    let sender_pa =
      ap ntohl (drop_append ah.sender_ha pa 6 f.sender_ha)
      ∙ ntohl-htonl ah.sender_pa (ah.target_ha ++ htonl ah.target_pa) f.sender_pa in
    let target_ha =
      ap (take 6)
        (behind-sender ah.sender_ha ah.sender_pa (ah.target_ha ++ htonl ah.target_pa) f.sender_ha)
      ∙ take_append ah.target_ha (htonl ah.target_pa) 6 f.target_ha in
    let target_pa =
      ap ntohl (
        behind-target ah.sender_ha ah.sender_pa ah.target_ha (htonl ah.target_pa) f.sender_ha
          f.target_ha)
      ∙ ntohl-htonl ah.target_pa [] f.target_pa in
    λ i. record {
      htype = htype i;
      ptype = ptype i;
      hlen = ah.hlen;
      plen = ah.plen;
      oper = oper i;
      sender_ha = sender_ha i;
      sender_pa = sender_pa i;
      target_ha = target_ha i;
      target_pa = target_pa i;
    }

-- The Ethernet frame with an ARP header, and padding behind it.
abbrev pub arp_frame : MacAddress → MacAddress → ArpHeader → Bytes → Bytes
arp_frame dst src ah pad = dst ++ (src ++ (htons eth_p_arp ++ (arp_bytes ah ++ pad)))

pub length-arp_bytes :
    (ah : ArpHeader)
    → length ah.sender_ha ≡ 6
    → length ah.target_ha ≡ 6
    → length (arp_bytes ah) ≡ arp_header_size
unfolding arp_bytes
length-arp_bytes ah s t =
    rw
      (
        length-append ah.sender_ha (htonl ah.sender_pa ++ (ah.target_ha ++ htonl ah.target_pa)),
        length-append ah.target_ha (htonl ah.target_pa),
      )
      (omega arith)

-- What stands behind both addresses of an Ethernet frame.
pub behind-addresses :
    (dst src rest : Bytes) → length dst ≡ 6 → length src ≡ 6 → drop 12 (dst ++ (src ++ rest)) ≡ rest
behind-addresses dst src rest d s =
    sym (drop-drop 6 6 (dst ++ (src ++ rest)))
    ∙ (ap (drop 6) (drop_append dst (src ++ rest) 6 d) ∙ drop_append src rest 6 s)

-- An ARP frame whose addresses and fields have the sizes of their C types.
module _ (dst src : MacAddress) (ah : ArpHeader) (pad : Bytes) (d : length dst ≡ 6)
    (s : length src ≡ 6) (f : Fits ah) where
  pub length-arp_frame : length (arp_frame dst src ah pad) ≡ 42 + length pad
  length-arp_frame =
      rw
        (
          length-append dst (src ++ (htons eth_p_arp ++ (arp_bytes ah ++ pad))),
          length-append src (htons eth_p_arp ++ (arp_bytes ah ++ pad)),
          length-append (arp_bytes ah) pad,
          length-arp_bytes ah f.sender_ha f.target_ha,
        )
        (omega arith)

  pub source-arp_frame : take 6 (drop 6 (arp_frame dst src ah pad)) ≡ src
  source-arp_frame =
      ap (take 6) (drop_append dst (src ++ (htons eth_p_arp ++ (arp_bytes ah ++ pad))) 6 d)
      ∙ take_append src (htons eth_p_arp ++ (arp_bytes ah ++ pad)) 6 s

  behind : drop 12 (arp_frame dst src ah pad) ≡ htons eth_p_arp ++ (arp_bytes ah ++ pad)
  behind = behind-addresses dst src (htons eth_p_arp ++ (arp_bytes ah ++ pad)) d s

  pub tag-arp_frame : ntohs (drop 12 (arp_frame dst src ah pad)) ≡ eth_p_arp
  tag-arp_frame = ap ntohs behind

  pub header-arp_frame : arp_header (take arp_header_size (drop 14 (arp_frame dst src ah pad))) ≡ ah
  header-arp_frame =
      ap (λ (b : Bytes). arp_header (take arp_header_size b))
        (sym (drop-drop 12 2 (arp_frame dst src ah pad)) ∙ ap (drop 2) behind)
      ∙ (ap arp_header (
            take_append (arp_bytes ah) pad arp_header_size
              (length-arp_bytes ah f.sender_ha f.target_ha))
          ∙ arp_header-arp_bytes ah f)

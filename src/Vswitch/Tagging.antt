-- ===== src/Vswitch/Tagging.antt =====
-- What adding and removing a VLAN tag does to a frame: vswitch.c.
use project_and_training_3_n.Base.{
  ℕ, ◌+◌, ◌%◌, ◌^◌, ◌≤◌, ◌<◌, ◌≡◌, ◌≢◌, refl, sym, ap, ◌∙◌, Bool, true, false, some, ◌++◌, Bytes,
  htons, ntohs, le→ltb, length, take, drop, length-take, length-drop, length-append, take_append,
  drop_append, take-append-drop, drop-drop, bit_and, bit_and-4095, arith,
}
use project_and_training_3_n.Vswitch.{Interface, eth_802_1q_tag}
use project_and_training_3_n.Vswitch.Forward.{
  interface_in_vlan, remove_tag, vlan_tag, add_tag, retag,
}
use project_and_training_3_n.Vswitch.Frame.{frame_vlan, tci_vlan}

length-addresses : (frame : Bytes) → 12 ≤ length frame → length (take 12 frame) ≡ 12
length-addresses frame h = omega (arith, length-take 12 frame)

-- Behind the addresses.
drop-addresses : (frame rest : Bytes) → 12 ≤ length frame → drop 12 (take 12 frame ++ rest) ≡ rest
drop-addresses frame rest h = drop_append (take 12 frame) rest 12 (length-addresses frame h)

drop-behind :
    (addresses rest : Bytes) (k : ℕ)
    → length addresses ≡ 12
    → drop (12 + k) (addresses ++ rest) ≡ drop k rest
drop-behind addresses rest k h =
    sym (drop-drop 12 k (addresses ++ rest)) ∙ ap (λ b. drop k b) (drop_append addresses rest 12 h)

drop-tag :
    (frame rest : Bytes) (k : ℕ)
    → 12 ≤ length frame
    → drop (12 + k) (take 12 frame ++ rest) ≡ drop k rest
drop-tag frame rest k h = drop-behind (take 12 frame) rest k (length-addresses frame h)

-- A tag that was added is removed again without a trace.
pub remove_tag-add_tag :
    (vlan_id : ℕ) (frame : Bytes) → 12 ≤ length frame → remove_tag (add_tag vlan_id frame) ≡ frame
unfolding remove_tag add_tag vlan_tag
remove_tag-add_tag vlan_id frame h =
    rw
      (
        take_append (take 12 frame) (vlan_tag vlan_id ++ drop 12 frame) 12
            (length-addresses frame h),
        drop-tag frame (vlan_tag vlan_id ++ drop 12 frame) 4 h,
      )
      (take-append-drop 12 frame)

remove_tag_parts :
    (addresses tag rest : Bytes)
    → length addresses ≡ 12
    → length tag ≡ 4
    → remove_tag (addresses ++ (tag ++ rest)) ≡ addresses ++ rest
unfolding remove_tag
remove_tag_parts addresses tag rest h four =
    rw
      (
        take_append addresses (tag ++ rest) 12 h,
        drop-behind addresses (tag ++ rest) 4 h,
        drop_append tag rest 4 four,
      )
      refl

add_tag_parts :
    (vlan_id : ℕ) (addresses rest : Bytes)
    → length addresses ≡ 12
    → add_tag vlan_id (addresses ++ rest) ≡ addresses ++ (vlan_tag vlan_id ++ rest)
unfolding add_tag
add_tag_parts vlan_id addresses rest h =
    rw (take_append addresses rest 12 h, drop_append addresses rest 12 h) refl

tci_vlan_parts :
    (addresses rest : Bytes) (tci : ℕ)
    → length addresses ≡ 12
    → tci < 2 ^ 16
    → tci_vlan (addresses ++ (htons eth_802_1q_tag ++ (htons tci ++ rest))) ≡ tci % 2 ^ 12
unfolding tci_vlan
tci_vlan_parts addresses rest tci h small =
    rw (drop-behind addresses (htons eth_802_1q_tag ++ (htons tci ++ rest)) 2 h, bit_and-4095)
      (omega arith)

vlan_tag-lt : (v : ℕ) → v < 2 ^ 12 → vlan_tag v ≡ htons eth_802_1q_tag ++ htons v
unfolding vlan_tag
vlan_tag-lt v small =
    let masked : bit_and v 0x0fff ≡ v = omega (arith, bit_and-4095 v) in rw masked refl

-- For a frame of twelve bytes of addresses, the tag's type, its control field and the rest: a tag
-- that was removed and added again is the tag with its upper four bits, priority and drop
-- eligibility, cleared; the rest of the frame is the same.
pub add_tag-remove_tag :
    (addresses rest : Bytes) (tci : ℕ)
    → length addresses ≡ 12
    → tci < 2 ^ 16
    → let frame = addresses ++ (htons eth_802_1q_tag ++ (htons tci ++ rest)) in
      add_tag (tci_vlan frame) (remove_tag frame)
      ≡ addresses ++ (htons eth_802_1q_tag ++ (htons (tci % 2 ^ 12) ++ rest))
add_tag-remove_tag addresses rest tci h small =
    rw
      (
        tci_vlan_parts addresses rest tci h small,
        remove_tag_parts addresses (htons eth_802_1q_tag ++ htons tci) rest h refl,
        add_tag_parts (tci % 2 ^ 12) addresses rest h,
        vlan_tag-lt (tci % 2 ^ 12) (omega arith),
      )
      refl

-- How `parse_frame` reads a frame that starts with twelve bytes of addresses.
length-add_tag :
    (v : ℕ) (frame : Bytes) → 12 ≤ length frame → length (add_tag v frame) ≡ length frame + 4
unfolding add_tag vlan_tag
length-add_tag v frame h = omega (
  arith,
  length-append (take 12 frame) (vlan_tag v ++ drop 12 frame),
  length-addresses frame h,
  length-drop 12 frame,
)

tag-add_tag :
    (v : ℕ) (frame : Bytes) → 12 ≤ length frame → ntohs (drop 12 (add_tag v frame)) ≡ eth_802_1q_tag
unfolding add_tag vlan_tag
tag-add_tag v frame h = rw (drop-addresses frame (vlan_tag v ++ drop 12 frame) h) refl

tci_vlan-add_tag :
    (v : ℕ) (frame : Bytes) → v < 2 ^ 12 → 12 ≤ length frame → tci_vlan (add_tag v frame) ≡ v
unfolding add_tag tci_vlan
tci_vlan-add_tag v frame small h =
    rw (drop-tag frame (vlan_tag v ++ drop 12 frame) 2 h, vlan_tag-lt v small, bit_and-4095)
      (omega arith)

length-remove_tag :
    (frame : Bytes) → 16 ≤ length frame → length (remove_tag frame) + 4 ≡ length frame
unfolding remove_tag
length-remove_tag frame h = omega (
  arith,
  length-append (take 12 frame) (drop 16 frame),
  length-addresses frame (omega arith),
  length-drop 16 frame,
)

tag-remove_tag :
    (frame : Bytes) → 12 ≤ length frame → ntohs (drop 12 (remove_tag frame)) ≡ ntohs (drop 16 frame)
unfolding remove_tag
tag-remove_tag frame h = rw (drop-addresses frame (drop 16 frame) h) refl

-- A port takes an untagged frame into its untagged VLAN.
frame_vlan-untagged :
    (ifc : Interface) (v : ℕ) (frame : Bytes)
    → 14 ≤ length frame
    → ntohs (drop 12 frame) ≢ eth_802_1q_tag
    → interface_in_vlan ifc v ≡ some false
    → frame_vlan ifc frame ≡ some (v, false)
unfolding frame_vlan interface_in_vlan
frame_vlan-untagged ifc v frame h plain member = ground arith

-- A port that is a tagged member of the VLAN takes a frame with its tag into that VLAN.
frame_vlan-tagged :
    (ifc : Interface) (v : ℕ) (frame : Bytes)
    → 18 ≤ length frame
    → ntohs (drop 12 frame) ≡ eth_802_1q_tag
    → tci_vlan frame ≡ v
    → interface_in_vlan ifc v ≡ some true
    → frame_vlan ifc frame ≡ some (v, true)
unfolding frame_vlan
frame_vlan-tagged ifc v frame h tag tci member =
    rw (le→ltb (length frame) 14 (omega arith), tag, le→ltb (length frame) 18 h, tci, member)
      (ap (λ k. some (k, true)) tci)

-- What `parse_frame` found out about a frame that it accepted.
pub record Accepted (frame : Bytes) (v : ℕ) (frame_is_tagged : Bool) : Type 0 where
  pub long : 14 ≤ length frame
  pub tagged :
      frame_is_tagged ≡ true
      → (18 ≤ length frame) × (ntohs (drop 12 frame) ≡ eth_802_1q_tag) × (tci_vlan frame ≡ v)
  pub untagged : frame_is_tagged ≡ false → ntohs (drop 12 frame) ≢ eth_802_1q_tag

pub frame_vlan-Accepted :
    (ifc : Interface) (frame : Bytes) {v : ℕ} {t : Bool}
    → frame_vlan ifc frame ≡ some (v, t)
    → Accepted frame v t
unfolding frame_vlan
frame_vlan-Accepted ifc frame e = record {
  long = ground arith;
  tagged = ground arith;
  untagged = ground arith;
}

-- The port that a frame came in on is a member of the frame's VLAN, of the kind of the frame.
pub frame_vlan-member :
    (ifc : Interface) (frame : Bytes) {v : ℕ} {t : Bool}
    → frame_vlan ifc frame ≡ some (v, t)
    → interface_in_vlan ifc v ≡ some t
unfolding frame_vlan interface_in_vlan
frame_vlan-member ifc frame e = ground arith

-- A frame that was accepted for a VLAN, with the header for a member port of that VLAN, is taken
-- into the same VLAN by a switch port of the same configuration at the other end of the cable. If
-- the tag is removed for that port, the frame must not hold a second tag.
pub frame_vlan-retag :
    (src ifc : Interface) (frame : Bytes) {v : ℕ} {t kind : Bool}
    → frame_vlan src frame ≡ some (v, t)
    → v < 2 ^ 12
    → interface_in_vlan ifc v ≡ some kind
    → (t ≡ true → kind ≡ false → ntohs (drop 16 frame) ≢ eth_802_1q_tag)
    → frame_vlan ifc (retag t kind v frame) ≡ some (v, kind)
unfolding retag
frame_vlan-retag src ifc frame {v} {t = true} {kind = true} e small member single =
    let (long, tag, tci) = (frame_vlan-Accepted src frame e).tagged refl in
    frame_vlan-tagged ifc v frame long tag tci member
frame_vlan-retag src ifc frame {v} {t = true} {kind = false} e small member single =
    let (long, tag, tci) = (frame_vlan-Accepted src frame e).tagged refl in
    frame_vlan-untagged ifc v (remove_tag frame)
      (omega (arith, length-remove_tag frame (omega arith)))
      (rw (tag-remove_tag frame (omega arith)) (single refl refl)) member
frame_vlan-retag src ifc frame {v} {t = false} {kind = true} e small member single =
    let long = (frame_vlan-Accepted src frame e).long in
    frame_vlan-tagged ifc v (add_tag v frame) (omega (arith, length-add_tag v frame (omega arith)))
      (tag-add_tag v frame (omega arith)) (tci_vlan-add_tag v frame small (omega arith)) member
frame_vlan-retag src ifc frame {v} {t = false} {kind = false} e small member single =
    let a = frame_vlan-Accepted src frame e in
    frame_vlan-untagged ifc v frame a.long (a.untagged refl) member

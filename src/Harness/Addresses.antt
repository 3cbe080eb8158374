-- ===== src/Harness/Addresses.antt =====
-- The addresses that the harness makes up, and frames for them.
use mathlib.Core.List.{map}
use project_and_training_3_n.Base.{
  ℕ, suc, ◌-◌, ◌≤◌, ◌<◌, ◌≡◌, refl, ap, ◌∙◌, false, List, [], ◌∷◌, ◌++◌, Bytes, bit_and, bit_and-1,
  bit_and-even, ltb, ◌==◌, length, get_elem?, get_elem?_total, take, drop, length-append,
  length-drop, take_append, drop_append, some, ok, All, All-get_elem?, arith,
}
use project_and_training_3_n.Wire.{mac_addr_size, MacAddress}
use project_and_training_3_n.Vswitch.Table.{is_multicast_or_broadcast}
use project_and_training_3_n.Harness.{set_dest_mac}
use project_and_training_3_n.Harness.Meta.{random_macs}
use project_and_training_3_n.Harness.Sending.{IsMac}

-- An address of six bytes that the switch takes for a single station's.
abbrev pub IsStation : MacAddress → Type 0
IsStation mac = IsMac mac × (is_multicast_or_broadcast mac ≡ false)

length-map : (f : ℕ → ℕ) (xs : List ℕ) → length (map f xs) ≡ length xs
length-map f [] = refl
length-map f (x ∷ xs) = ap suc (length-map f xs)

station : (draw : List ℕ) → length draw ≡ mac_addr_size → IsStation (map (λ d. bit_and 0xFE d) draw)
unfolding is_multicast_or_broadcast
station [] six = absurd (omega arith)
station (d ∷ draw) six = (
  length-map (λ x. bit_and 0xFE x) (d ∷ draw) ∙ six,
  rw (bit_and-1 (bit_and 0xFE d), bit_and-even 0xFE d refl) refl,
)

-- If each address comes from six random numbers, then there are as many addresses, and each is of a
-- single station, so that the switch learns it.
pub random_macs-IsStation :
    (draws : List (List ℕ))
    → All (λ draw. length draw ≡ mac_addr_size) draws
    → (length (random_macs draws) ≡ length draws) × All IsStation (random_macs draws)
unfolding random_macs
random_macs-IsStation [] six = (refl, tt)
random_macs-IsStation (draw ∷ draws) six =
    let (count, rest) = random_macs-IsStation draws six.1 in
    (ap suc count, (station draw six.0, rest))

-- With the number of an interface and a frame with a whole header, `set_dest_mac` gives a frame of
-- the same length, with that interface's address as its destination and all else as before.
pub set_dest_mac_lem :
    (gifcs : List MacAddress) (frame : Bytes) (n : ℕ)
    → All IsMac gifcs
    → 0 < n
    → n ≤ length gifcs
    → 14 ≤ length frame
    → (mac : MacAddress) × (out : Bytes) × (get_elem? gifcs (n - 1) ≡ some mac)
      × (set_dest_mac gifcs frame n ≡ ok out)
      × (take 6 out ≡ mac)
      × (drop 6 out ≡ drop 6 frame)
      × (length out ≡ length frame)
unfolding set_dest_mac
set_dest_mac_lem gifcs frame n v some_ here long =
    let (mac, there) = get_elem?_total gifcs (n - 1) (omega arith) in
    let six : length mac ≡ 6 = All-get_elem? IsMac gifcs (n - 1) v there in
    let whole : ltb (length frame) 14 ≡ false = ground arith in
    let number : (n == 0) ≡ false = ground arith in
    (
      mac,
      mac ++ drop 6 frame,
      there,
      rw (set_dest_mac, number, there, whole) refl,
      take_append mac (drop 6 frame) 6 six,
      drop_append mac (drop 6 frame) 6 six,
      length-append mac (drop 6 frame) ∙ omega (arith, six, length-drop 6 frame),
    )

-- ===== src/VswitchTest.antt =====
-- test-vswitch.c: the frames that it builds, how it talks to the switch, and the tests that the
-- compiler accepts.
pub mod Frames
pub mod Hearing
pub mod Flooding
pub mod Passing
mod Tests
use mathlib.Core.List.{flatten}
use project_and_training_3_n.Base.{
  ℕ, zero, suc, ◌+◌, ◌-◌, ◌*◌, ◌%◌, ◌^◌, Bool, true, false, not, ◌&&◌, ◌||◌, Option, none, some,
  List, [], ◌∷◌, ◌++◌, Bytes, htons, ntohs, bit_and, ◌==◌, ltb, leb, if◌then◌else◌, length, take,
  drop,
}
use project_and_training_3_n.Wire.{header_size, mac_addr_size, header_bytes, MacAddress}
use project_and_training_3_n.Vswitch.{eth_802_1q_tag}

-- What is written for the addresses of `num_ifc` interfaces.
unfoldable pub send_macs : List MacAddress → Bytes
send_macs macs =
    header_bytes (record { size = header_size + length macs * mac_addr_size; type = 0 })
    ++ flatten macs

unfoldable pub send_frame : ℕ → Bytes → Bytes
send_frame ifc frame =
    header_bytes (record { size = header_size + length frame; type = ifc }) ++ frame

-- What `receive_frame` returns: 0, -1, or the type of the message, with the body in `buf`.
pub data Received : Type 0 where
  nothing broken : Received
  got : ℕ → Bytes → Received

-- `answer` says whether `select` finds the pipe readable; a `read` gets what the pipe holds then, up
-- to its size. The second result is the pipe behind the call. `size` is a `uint16_t`.
unfoldable pub receive_frame : ℕ → Bool → Bytes → Received × Bytes
receive_frame buf_size answer pipe =
    let hdr = take header_size pipe in
    let rest = drop header_size pipe in
    let size = (ntohs hdr + 2 ^ 16 - header_size) % 2 ^ 16 in
    if not answer
    then (nothing, pipe)
    else if not (length hdr == header_size)
    then (broken, rest)
    else if ltb buf_size size
    then (broken, rest)
    else if not (length (take size rest) == size)
    then (broken, drop size rest)
    else (got (ntohs (drop 2 hdr)) (take size rest), drop size rest)

-- The frame in `buf`, which is large enough.
unfoldable pub build_frame : MacAddress → MacAddress → ℕ → Bytes → Bytes
build_frame dst src ethertype payload = dst ++ (src ++ (htons ethertype ++ payload))

unfoldable pub build_tagged_frame : MacAddress → MacAddress → ℕ → ℕ → Bytes → Bytes
build_tagged_frame dst src vlan_id ethertype payload =
    dst
    ++ (src
        ++ (htons eth_802_1q_tag
            ++ (htons (bit_and vlan_id 0x0fff) ++ (htons ethertype ++ payload))))

abbrev pub mac1 : MacAddress
mac1 = 0x00 ∷ 0x11 ∷ 0x22 ∷ 0x33 ∷ 0x44 ∷ 0x01 ∷ []

abbrev pub broadcast : MacAddress
broadcast = 0xff ∷ 0xff ∷ 0xff ∷ 0xff ∷ 0xff ∷ 0xff ∷ []

-- `multicast` of `test_multicast`.
abbrev pub multicast : MacAddress
multicast = 0x01 ∷ 0x00 ∷ 0x5e ∷ 0x00 ∷ 0x00 ∷ 0x01 ∷ []

-- `ifc_mac1`, `ifc_mac2` and `ifc_mac3`.
abbrev pub macs : List MacAddress
macs =
    (0xaa ∷ 0xbb ∷ 0xcc ∷ 0xdd ∷ 0xee ∷ 0x01 ∷ [])
    ∷ (0xaa ∷ 0xbb ∷ 0xcc ∷ 0xdd ∷ 0xee ∷ 0x02 ∷ [])
    ∷ (0xaa ∷ 0xbb ∷ 0xcc ∷ 0xdd ∷ 0xee ∷ 0x03 ∷ [])
    ∷ []

-- `sizeof (recv_buf)`
abbrev pub recv_buf_size : ℕ
recv_buf_size = 128

-- Calls of `receive_frame`, one for each answer of `select`.
unfoldable pub receive_each : List Bool → Bytes → List Received
unfolding receive_frame
receive_each [] pipe = []
receive_each (answer ∷ answers) pipe =
    let (r, pipe') = receive_frame recv_buf_size answer pipe in r ∷ receive_each answers pipe'

-- The answers of `select` in the three calls of a test.
abbrev pub Answers : Type 0
Answers = Bool × Bool × Bool

abbrev pub answer_list : Answers → List Bool
answer_list answers = answers.0 ∷ answers.1 ∷ answers.2 ∷ []

-- The loop over three calls of `receive_frame`.
unfoldable pub receive_frames : Answers → Bytes → List Received
unfolding receive_each
receive_frames answers pipe = receive_each (answer_list answers) pipe

-- The interface is the one returned.
unfoldable pub is_from : ℕ → Received → Bool
is_from n nothing = false
is_from n broken = false
is_from n (got ifc frame) = ifc == n

-- `received_on[n]`
unfoldable pub received_on : ℕ → List Received → Bool
unfolding is_from
received_on n [] = false
received_on n (r ∷ rs) = is_from n r || received_on n rs

-- `count`
unfoldable pub count : List Received → ℕ
unfolding is_from
count [] = 0
count (r ∷ rs) = if is_from 2 r || is_from 3 r then suc (count rs) else count rs

-- The arguments for the program: "./vswitch", "eth0", "eth1" and "eth2".
abbrev pub args : List Bytes
args =
    (b'.' ∷ b'/' ∷ b'v' ∷ b's' ∷ b'w' ∷ b'i' ∷ b't' ∷ b'c' ∷ b'h' ∷ [])
    ∷ (b'e' ∷ b't' ∷ b'h' ∷ b'0' ∷ [])
    ∷ (b'e' ∷ b't' ∷ b'h' ∷ b'1' ∷ [])
    ∷ (b'e' ∷ b't' ∷ b'h' ∷ b'2' ∷ [])
    ∷ []

-- What a test writes before it reads.
unfoldable pub flooding_input : MacAddress → Bytes → Bytes
unfolding send_macs send_frame build_frame
flooding_input dst payload = send_macs macs ++ send_frame 1 (build_frame dst mac1 0x0800 payload)

-- `start_vswitch` gives the running program, what it writes for what it reads, or fails. The result
-- is 0 if the test is passed.
unfoldable pub test_broadcast_flooding : (List Bytes → Option (Bytes → Bytes)) → Answers → ℕ
unfolding flooding_input received_on
test_broadcast_flooding start_vswitch answers = elim (start_vswitch args) [
  | none ↦ 1
  | some vswitch ↦
      let received =
        receive_frames answers
          (vswitch (flooding_input broadcast (b't' ∷ b'e' ∷ b's' ∷ b't' ∷ []))) in
      if not (received_on 2 received) || not (received_on 3 received)
      then 1
      else if received_on 1 received
      then 1
      else 0
]

unfoldable pub test_multicast : (List Bytes → Option (Bytes → Bytes)) → Answers → ℕ
unfolding flooding_input count
test_multicast start_vswitch answers = elim (start_vswitch args) [
  | none ↦ 1
  | some vswitch ↦
      let received =
        receive_frames answers
          (vswitch (flooding_input multicast (b'm' ∷ b'c' ∷ b'a' ∷ b's' ∷ b't' ∷ []))) in
      if ltb (count received) 2 then 1 else 0
]

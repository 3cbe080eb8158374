-- ===== src/Vswitch/Tests.antt =====
-- The switch on concrete frames: port 1 untagged in VLAN 10, port 2 tagged in 10 and 20, port 3
-- untagged in VLAN 20, port 4 untagged in VLAN 10.
use project_and_training_3_n.Base.{
  ℕ, ◌≡◌, inr, refl, true, false, none, some, List, [], ◌∷◌, ◌++◌, Bytes, htons, length, ok, All,
  arith,
}
use project_and_training_3_n.Wire.{MacAddress}
use project_and_training_3_n.Wire.Loop.{LoopState, loop}
use project_and_training_3_n.Libc.{is_digit, digits_value, strchr, strtok, scan_uint}
use project_and_training_3_n.Libc.Scan.{IsNumber}
use project_and_training_3_n.Vswitch.{Interface, Vswitch, eth_802_1q_tag}
use project_and_training_3_n.Vswitch.Table.{
  mac_hash, is_multicast_or_broadcast, learn_mac, lookup_mac,
}
use project_and_training_3_n.Vswitch.Learning
use project_and_training_3_n.Vswitch.Forward.{
  interface_in_vlan, has_vlan, add_tag, retag, send_frame, forward_frame, flood_frame,
}
use project_and_training_3_n.Vswitch.Tagging.{frame_vlan-retag}
use project_and_training_3_n.Vswitch.Frame.{
  frame_vlan, tci_vlan, port, forward, parse_frame, Running, handlers,
}
use project_and_training_3_n.Vswitch.Invariant.{IsValid, taught}
use project_and_training_3_n.Vswitch.Isolation.{
  Delivers, ToWhom, receivers, parse_frame-Delivers, vswitch-Safe,
}
use project_and_training_3_n.Vswitch.Unicast.{parse_frame-learned}
use mathlib.Core.List.{flatten}
use project_and_training_3_n.Wire.Safety.{Ends}
use project_and_training_3_n.Wire.Commands.{Unless, empty_command}
use project_and_training_3_n.Vswitch.Args.{zeroed, fresh, parse_vlan_args, parse_args, start}
use project_and_training_3_n.Vswitch.ArgsLaws.{IsConfig, start-IsValid}

abbrev eth1 : Interface
eth1 = fresh 1 (b'a' ∷ []) [] (some 10)

abbrev eth2 : Interface
eth2 = fresh 2 (b'b' ∷ []) (10 ∷ 20 ∷ []) none

abbrev eth3 : Interface
eth3 = fresh 3 (b'c' ∷ []) [] (some 20)

abbrev eth4 : Interface
eth4 = fresh 4 (b'd' ∷ []) [] (some 10)

abbrev ports : List Interface
ports = eth1 ∷ eth2 ∷ eth3 ∷ eth4 ∷ []

abbrev empty : Vswitch
empty = record { gifc = ports; mac_table = λ _. zeroed }

empty-IsValid : IsValid empty
empty-IsValid = record {
  numbered = omega arith;
  learned = λ i. record {
    placed = λ f. absurd (cc f);
    single = λ f. absurd (cc f);
    member = λ f. absurd (cc f);
  };
}

abbrev station : MacAddress
station = 2 ∷ 0 ∷ 0 ∷ 0 ∷ 0 ∷ 1 ∷ []

abbrev peer : MacAddress
peer = 2 ∷ 0 ∷ 0 ∷ 0 ∷ 0 ∷ 2 ∷ []

-- From `peer` to `station`.
abbrev plain : Bytes
plain = station ++ (peer ++ (8 ∷ 0 ∷ 77 ∷ 78 ∷ []))

-- The same with a tag of priority 1 for VLAN 10.
abbrev tagged : Bytes
tagged = station ++ (peer ++ (htons eth_802_1q_tag ++ (htons 0x200a ++ (8 ∷ 0 ∷ 77 ∷ 78 ∷ []))))

flood_plain :
    parse_frame 5 5 empty eth1 plain
    ≡ ok (taught 5 empty eth1 plain 10, send_frame 2 (add_tag 10 plain) ++ send_frame 4 plain)
unfolding parse_frame forward frame_vlan interface_in_vlan is_multicast_or_broadcast learn_mac
    lookup_mac mac_hash flood_frame forward_frame has_vlan retag send_frame
flood_plain = refl

-- A tagged frame on an untagged port is dropped.
drop_tagged : parse_frame 5 5 empty eth1 tagged ≡ ok (empty, [])
unfolding parse_frame frame_vlan interface_in_vlan has_vlan tci_vlan
drop_tagged = refl

plain_accepted : frame_vlan eth1 plain ≡ some (10, false)
unfolding frame_vlan
plain_accepted = refl

eth1_there : port ports 1 ≡ ok eth1
unfolding port
eth1_there = refl

parse_frame-Delivers_example :
    (r : Vswitch × Bytes) × (to : List ℕ) × (parse_frame 5 6 empty eth1 plain ≡ ok r)
    × Delivers eth1 ports plain 10 false r.1 to
    × ToWhom 6 (taught 5 empty eth1 plain 10) eth1 plain 10 to
parse_frame-Delivers_example =
    parse_frame-Delivers 5 6 empty eth1 plain empty-IsValid eth1_there plain_accepted

abbrev reads : List Bytes
reads = (0 ∷ 5 ∷ 0 ∷ []) ∷ (0 ∷ 9 ∷ []) ∷ (0 ∷ 5 ∷ 0 ∷ 0 ∷ b'x' ∷ []) ∷ []

vswitch-Safe_example :
    Ends
      (Unless (empty_command (length (flatten reads)) false (flatten reads)))
      (λ (st : LoopState Running). IsValid st.app.sw)
      (loop (handlers (λ i. i)) reads (record { sw = empty; out = []; step = 0 }))
vswitch-Safe_example =
    vswitch-Safe (λ i. i) reads (record { sw = empty; out = []; step = 0 }) (omega arith)
      empty-IsValid

-- A header alone behind the addresses is such a command, and no other of these messages is.
empty_command_runs :
    (empty_command 9 false (flatten reads) ≡ false)
    × (empty_command 9 false (0 ∷ 4 ∷ 0 ∷ 0 ∷ 0 ∷ 5 ∷ 0 ∷ 0 ∷ 9 ∷ []) ≡ false)
    × (empty_command 9 false (0 ∷ 5 ∷ 0 ∷ 0 ∷ 9 ∷ 0 ∷ 4 ∷ 0 ∷ 0 ∷ 0 ∷ []) ≡ true)
unfolding empty_command flatten
empty_command_runs = (refl, refl, refl)

-- `station` was heard on port 2; `peer` writes to it from port 1.
parse_frame-learned_example :
    (r : Vswitch × Bytes) × (parse_frame 100 100
        (record { gifc = ports; mac_table = learn_mac 5 (λ _. zeroed) station 2 10 })
        eth1
        plain
      ≡ ok r)
    × Delivers eth1 ports plain 10 false r.1 (2 ∷ [])
unfolding receivers interface_in_vlan has_vlan port is_multicast_or_broadcast mac_hash
parse_frame-learned_example =
    parse_frame-learned 5 100 100 empty eth2 eth1 plain station refl refl refl (omega arith)
      (omega arith) plain_accepted

frame_vlan-retag_example : frame_vlan eth2 (retag false true 10 plain) ≡ some (10, true)
unfolding interface_in_vlan has_vlan
frame_vlan-retag_example =
    frame_vlan-retag eth1 eth2 plain plain_accepted (omega arith) refl (λ e. absurd (cc e))

-- The address that was learned in VLAN 10 is heard in VLAN 20.
lookup-learn_evicted_example :
    (lookup_mac 6 (learn_mac 6 (learn_mac 5 (λ _. zeroed) station 2 10) station 3 20) station 10).1
    ≡ none
unfolding is_multicast_or_broadcast
lookup-learn_evicted_example =
    Learning.lookup-learn_evicted 6 6 (learn_mac 5 (λ _. zeroed) station 2 10) station station 3 20
      10 refl refl (inr (omega arith))

-- "a", "b[T:10,20]", "c[U:20]"
abbrev arguments : List Bytes
arguments =
    (b'a' ∷ [])
    ∷ (b'b' ∷ b'[' ∷ b'T' ∷ b':' ∷ b'1' ∷ b'0' ∷ b',' ∷ b'2' ∷ b'0' ∷ b']' ∷ [])
    ∷ (b'c' ∷ b'[' ∷ b'U' ∷ b':' ∷ b'2' ∷ b'0' ∷ b']' ∷ [])
    ∷ []

abbrev started : Vswitch
started = record {
  gifc = fresh 1 (b'a' ∷ []) [] (some 0) ∷ eth2 ∷ eth3 ∷ [];
  mac_table = λ _. zeroed;
}

start-arguments : start arguments ≡ some started
unfolding start parse_args parse_vlan_args strchr strtok scan_uint
start-arguments = refl

-- "d[T:]": neither untagged nor tagged.
no_vlan :
    parse_vlan_args 4 (b'd' ∷ b'[' ∷ b'T' ∷ b':' ∷ b']' ∷ []) ≡ some (fresh 4 (b'd' ∷ []) [] none)
unfolding parse_vlan_args strchr strtok scan_uint
no_vlan = refl

ten : IsNumber (b'1' ∷ b'0' ∷ []) 10
unfolding digits_value is_digit
ten = record { nonempty = λ e. cc e; digits = (refl, (refl, tt)); value = refl }

twenty : IsNumber (b'2' ∷ b'0' ∷ []) 20
unfolding digits_value is_digit
twenty = record { nonempty = λ e. cc e; digits = (refl, (refl, tt)); value = refl }

start-IsValid_example : IsValid started × All IsConfig started.gifc × (length started.gifc ≡ 3)
start-IsValid_example = start-IsValid arguments (omega arith) start-arguments

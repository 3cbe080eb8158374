-- ===== src/Harness/Tests.antt =====
-- The harness on concrete messages: a text, and a frame from the interfaces 2 and 3.
use mathlib.Core.List.{flatten}
use project_and_training_3_n.Base.{
  ℕ, zero, suc, ◌≡◌, refl, sym, ap, true, some, none, List, [], ◌∷◌, ◌++◌, Bytes, length, replicate,
  bit, equal, ok, ◌>>=◌, All, arith,
}
use project_and_training_3_n.Wire.{MacAddress}
use project_and_training_3_n.Wire.Delivery.{Message, types, deliver}
use project_and_training_3_n.Wire.Loop.{Handlers, loop}
use project_and_training_3_n.Vswitch.{Interface}
use project_and_training_3_n.Vswitch.Args.{fresh}
use project_and_training_3_n.Vswitch.Forward
use project_and_training_3_n.Vswitch.Forward.{
  interface_in_vlan, has_vlan, retag, forward_frame, flood_frame,
}
use project_and_training_3_n.Vswitch.Isolation.{receivers}
use project_and_training_3_n.Wire.Loop
use project_and_training_3_n.Wire.Loop.{receive, drain, consume, dispatch, deliver_macs}
use project_and_training_3_n.Vswitch.{Vswitch}
use project_and_training_3_n.Vswitch.Args.{zeroed}
use project_and_training_3_n.Vswitch.Frame.{
  handlers, handle_mac, set_mac, handle_frame, port, parse_frame, frame_vlan, forward,
}
use project_and_training_3_n.Vswitch.Table.{
  learn_mac, store, mac_hash, hash_bytes, is_multicast_or_broadcast,
}
use project_and_training_3_n.Vswitch.Invariant.{IsValid}
use project_and_training_3_n.Harness.Passing.{fresh_run, output, output-passes}
use project_and_training_3_n.Harness.{Wait, timeout, readable, Harness, tsend}
use project_and_training_3_n.Harness.Expect.{
  pos, negsuc, fits_frame, expect_frame, expect_multicast,
}
use project_and_training_3_n.Harness.Receive.{
  done, running, attempt, attempts, trecv, expect_silence, run,
}
use project_and_training_3_n.Harness.Stream.{Ready, Holds}
use project_and_training_3_n.Harness.Refinement.{scan, Means, trecv-scan}
use project_and_training_3_n.Harness.Multicast.{multicast, multicast-IsLocal}
use project_and_training_3_n.Harness.Masked.{Seen}
use project_and_training_3_n.Harness.Flooding.{trecv-Seen, trecv-multicast}
use project_and_training_3_n.Harness.Skipping.{silence}
use project_and_training_3_n.Harness.Silence.{expect_silence-silence}
use project_and_training_3_n.Harness.Meta.{
  random_macs, control_message, fork_failed, launched, meta,
}
use project_and_training_3_n.Harness.Sending.{sent, handle_macs, tsend-deliver}
use project_and_training_3_n.Harness.Endless.{attempt-running}
use project_and_training_3_n.Harness.Addresses.{IsStation, random_macs-IsStation}

abbrev frame : Bytes
frame = 7 ∷ 8 ∷ []

abbrev messages : List Message
messages = record { type = 2; body = frame } ∷ record { type = 3; body = frame } ∷ []

abbrev child : Bytes
child = 0 ∷ 6 ∷ 0 ∷ 2 ∷ 7 ∷ 8 ∷ 0 ∷ 6 ∷ 0 ∷ 3 ∷ 7 ∷ 8 ∷ []

length-replicate : (n : ℕ) → length {A = ℕ} (replicate n 0) ≡ n
length-replicate zero = refl
length-replicate (suc n) = ap suc (length-replicate n)

-- An empty buffer before a pipe.
abbrev before : Bytes → Harness
before pipe = record { child_buf = []; behind = replicate 65536 0; pipe = pipe }

abbrev reads : List Wait
reads = replicate 12 (readable 5)

ready : Ready (before child) reads messages
ready = record {
  stream = refl;
  room = omega (arith, length-replicate 65536);
  live = omega arith;
  enough = omega arith;
}

trecv-scan_example :
    Means
      (trecv 1 (multicast frame (pos 2)) 6 (before child) reads)
      (scan (multicast frame (pos 2)) (attempts 1) 6 messages)
trecv-scan_example =
    trecv-scan (multicast frame (pos 2)) (multicast-IsLocal frame (pos 2)) 1 6 (before child) reads
      messages (omega arith) ready

received :
    (s : Harness × List Wait) × (trecv 1 (multicast frame (pos 2)) 6 (before child) reads
      ≡ done 0 0 s.0 s.1)
    × Ready s.0 s.1 []
unfolding types fits_frame equal
received =
    trecv-multicast frame (pos 2) 1 (before child) reads messages [] (omega arith) ready
      (omega arith) (omega arith) (omega arith) (omega arith)
      (((λ e. absurd (omega (arith, e))), tt), (tt, tt)) (refl, (refl, tt))

trecv-Seen_example : (zero ≡ zero) × ((i : ℕ) → bit i 6 ≡ 1 → Seen frame (pos 2) i messages)
trecv-Seen_example =
    trecv-Seen frame (pos 2) 1 6 (before child) reads messages (omega arith) ready received.1

-- Three ports in VLAN 10, the first of which the frame comes from.
abbrev eth1 : Interface
eth1 = fresh 1 [] [] (some 10)

abbrev ports : List Interface
ports = eth1 ∷ fresh 2 [] [] (some 10) ∷ fresh 3 [] (20 ∷ []) (some 10) ∷ []

-- A text, and nothing else.
abbrev text : List Message
text = record { type = 0; body = 104 ∷ [] } ∷ []

expect_silence-silence_example :
    (s : Harness × List Wait) × (expect_silence 70000
        (before (0 ∷ 5 ∷ 0 ∷ 0 ∷ 104 ∷ []))
        (readable 3 ∷ readable 2 ∷ timeout ∷ [])
      ≡ some ((silence text).0, s.0, s.1))
    × Holds s.0 (silence text).1
expect_silence-silence_example =
    expect_silence-silence 70000 (readable 3 ∷ readable 2 ∷ timeout ∷ [])
      (before (0 ∷ 5 ∷ 0 ∷ 0 ∷ 104 ∷ [])) text (omega arith) (omega arith)
      (record { stream = refl; room = omega (arith, length-replicate 65536) }) (omega arith)
      (omega arith)

-- A text of size 0 in the buffer.
abbrev stuck : Harness
stuck = record { child_buf = 0 ∷ 0 ∷ 0 ∷ 0 ∷ []; behind = []; pipe = [] }

attempt-running_example :
    (attempt (multicast frame (pos 2)) 99 1 6 stuck [] ≡ running)
    × (expect_silence 99 stuck [] ≡ none)
unfolding expect_multicast
attempt-running_example =
    attempt-running stuck (omega arith) refl (multicast frame (pos 2)) 99 0 6 [] refl refl

abbrev draws : List (List ℕ)
draws = (1 ∷ 2 ∷ 3 ∷ 4 ∷ 5 ∷ 255 ∷ []) ∷ []

random_macs-IsStation_example :
    (length (random_macs draws) ≡ length draws) × All IsStation (random_macs draws)
random_macs-IsStation_example = random_macs-IsStation draws (omega arith)

-- A program that notes the numbers it is called with.
abbrev recorder : Handlers (List ℕ)
recorder = record {
  frame = λ n body seen. ok (seen ++ (n ∷ []));
  control = λ body seen. ok (seen ++ (0 ∷ []));
  mac = λ n addr seen. ok (seen ++ (n ∷ addr));
}

abbrev macs : List MacAddress
macs = (2 ∷ 2 ∷ 2 ∷ 4 ∷ 4 ∷ 254 ∷ []) ∷ []

sent_messages : sent messages ≡ ok child
unfolding sent tsend
sent_messages = refl

tsend-deliver_example : loop recorder (control_message macs ∷ child ∷ []) [] ≡ (
    handle_macs recorder 0 macs [] >>= λ s'.
    deliver recorder messages true s' >>= λ r. ok (record { buf = []; have_mac = r.0; app = r.1 }))
unfolding control_message flatten
tsend-deliver_example =
    tsend-deliver recorder (control_message macs ∷ child ∷ []) macs messages [] (omega arith)
      (omega arith) (omega arith) (omega arith) (omega arith) sent_messages refl

-- A frame of another length, and one that may be padded.
expected :
    (expect_frame 2 (7 ∷ 8 ∷ 9 ∷ []) 3 frame (pos 2) 2 ≡ 1)
    × (expect_frame 2 (7 ∷ 8 ∷ 9 ∷ []) 3 frame (negsuc 1) 2 ≡ 0)
    × (expect_frame 0 (7 ∷ 8 ∷ 9 ∷ []) 3 frame (negsuc 1) 2 ≡ 2)
unfolding expect_frame fits_frame equal
expected = (refl, refl, refl)

-- The codes of `meta`, with a command that succeeds and one that fails.
codes :
    (commands : List (List MacAddress → ℕ × List MacAddress)) × (meta commands launched 10 draws
        (λ ifcs bytes. ifcs)
      ≡ 3)
    × (meta commands launched 9 draws (λ ifcs bytes. ifcs) ≡ 4)
    × (meta commands fork_failed 10 draws (λ ifcs bytes. ifcs) ≡ 1)
unfolding meta random_macs run control_message
codes = ((λ s. (0, s)) ∷ (λ s. (3, s)) ∷ [], refl, refl, refl)

-- The three ports as a switch, before and after it takes one address.
abbrev switch : List Interface → Vswitch
switch gifc = record { gifc = gifc; mac_table = λ _. zeroed }

switch-IsValid : IsValid (switch ports)
switch-IsValid = record {
  numbered = omega arith;
  learned = λ i. record {
    placed = λ f. absurd (cc f);
    single = λ f. absurd (cc f);
    member = λ f. absurd (cc f);
  };
}

abbrev eth1_taken : Interface
eth1_taken = record eth1 { mac = 2 ∷ 2 ∷ 2 ∷ 4 ∷ 4 ∷ 254 ∷ [] }

abbrev ports_taken : List Interface
ports_taken = eth1_taken ∷ fresh 2 [] [] (some 10) ∷ fresh 3 [] (20 ∷ []) (some 10) ∷ []

address_taken :
    handle_macs (handlers (λ i. i)) 0 macs (fresh_run (switch ports))
    ≡ ok (fresh_run (switch ports_taken))
unfolding handle_macs handlers handle_mac set_mac
address_taken = refl

-- To a group.
abbrev group_frame : Bytes
group_frame = 1 ∷ 0 ∷ 94 ∷ 0 ∷ 0 ∷ 1 ∷ 2 ∷ 0 ∷ 0 ∷ 0 ∷ 0 ∷ 9 ∷ 8 ∷ 0 ∷ 7 ∷ []

abbrev group_message : Bytes
group_message = 0 ∷ 19 ∷ 0 ∷ 1 ∷ group_frame

group_sent : tsend 1 group_frame ≡ ok group_message
unfolding tsend
group_sent = refl

abbrev group_flooded : Bytes
group_flooded = (0 ∷ 19 ∷ 0 ∷ 2 ∷ group_frame) ++ (0 ∷ 19 ∷ 0 ∷ 3 ∷ group_frame)

abbrev group_input : List Bytes
group_input = control_message macs ∷ group_message ∷ []

group_written : output (λ i. i) (switch ports) group_input ≡ group_flooded
unfolding output loop Loop.run receive drain consume control_message flatten dispatch deliver_macs
    handlers handle_mac set_mac handle_frame port parse_frame frame_vlan interface_in_vlan learn_mac
    store mac_hash hash_bytes is_multicast_or_broadcast forward flood_frame forward_frame has_vlan
    retag Forward.send_frame
group_written = refl

output-passes_example :
    (s : Harness × List Wait) × (trecv 1
        (multicast group_frame (pos 15))
        6
        (before group_flooded)
        (replicate 38 (readable 9))
      ≡ done 0 0 s.0 s.1)
    × Ready s.0 s.1 []
unfolding receivers interface_in_vlan has_vlan port frame_vlan is_multicast_or_broadcast flatten
    control_message
output-passes_example =
    output-passes (λ i. i) (switch ports) group_input macs 1 group_frame 1 (before group_flooded)
      (replicate 38 (readable 9)) switch-IsValid (omega arith) (omega arith) (omega arith)
      (omega arith) group_sent refl address_taken (omega arith) (omega arith) (omega arith) refl
      refl refl (omega arith) (omega arith)
      (λ e. absurd (cc e), (λ e. absurd (cc e), (λ e. absurd (cc e), tt))) (sym group_written)
      (omega (arith, length-replicate 65536)) (omega arith) (omega arith) (omega arith)
      (omega arith) (omega arith)

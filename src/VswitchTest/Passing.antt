-- ===== src/VswitchTest/Passing.antt =====
-- The switch of vswitch.c under the tests of test-vswitch.c.
use mathlib.Core.List.{flatten}
use mathlib.Core.Option.{some-injective}
use project_and_training_3_n.Base.{
  ℕ, suc, ◌<◌, ◌≡◌, refl, ap, ◌∙◌, Bool, true, false, Option, none, some, List, [], ◌∷◌, ◌++◌,
  Bytes, drop, length, Result, ok, err, inl, inr, All, arith, zero, ◌≢◌, get_elem?,
}
use project_and_training_3_n.Wire.Stream.{Result-cases}
use project_and_training_3_n.Harness.Passing.{output}
use project_and_training_3_n.Vswitch.{Vswitch}
use project_and_training_3_n.Vswitch.Frame.{Running, handlers}
use project_and_training_3_n.Vswitch.Args.{start}
use project_and_training_3_n.Wire.Delivery.{Message, Fits, encode_all, deliver, loop-deliver}
use project_and_training_3_n.Wire.Loop.{dispatch, deliver_macs}
use project_and_training_3_n.Libc.{strchr}
use project_and_training_3_n.Vswitch.{default_vlan}
use project_and_training_3_n.Vswitch.Args.{fresh, zeroed, parse_args, parse_vlan_args}
use project_and_training_3_n.Vswitch.Frame.{
  handle_mac, set_mac, handle_frame, port, parse_frame, frame_vlan, forward,
}
use project_and_training_3_n.Vswitch.Table.{
  learn_mac, store, mac_hash, hash_bytes, is_multicast_or_broadcast,
}
use project_and_training_3_n.Vswitch.Forward
use project_and_training_3_n.Vswitch.Forward.{
  interface_in_vlan, flood_frame, forward_frame, has_vlan, retag,
}
use project_and_training_3_n.VswitchTest.Hearing.{taken, IsAmong}
use project_and_training_3_n.VswitchTest.Flooding.{
  test_broadcast_flooding_lem, test_multicast-IsAmong,
}
use project_and_training_3_n.VswitchTest.{
  args, macs, mac1, send_macs, send_frame, build_frame, test_broadcast_flooding, test_multicast,
  flooding_input, broadcast, multicast,
}

program_of : (ℕ → ℕ) → (Bytes → List Bytes) → Option Vswitch → Option (Bytes → Bytes)
unfolding output
program_of time cut none = none
program_of time cut (some sw) = some (λ input. output time sw (cut input))

-- The program of vswitch.c as the test starts it: `time` is its clock, and `cut` how its reads cut
-- what it is sent.
unfoldable pub start_program : (ℕ → ℕ) → (Bytes → List Bytes) → List Bytes → Option (Bytes → Bytes)
unfolding program_of
start_program time cut argv = program_of time cut (start (drop 1 argv))

-- The switch behind `main`'s arguments.
abbrev switch : Vswitch
switch = record {
  gifc =
      fresh 1 (b'e' ∷ b't' ∷ b'h' ∷ b'0' ∷ []) [] (some default_vlan)
      ∷ fresh 2 (b'e' ∷ b't' ∷ b'h' ∷ b'1' ∷ []) [] (some default_vlan)
      ∷ fresh 3 (b'e' ∷ b't' ∷ b'h' ∷ b'2' ∷ []) [] (some default_vlan)
      ∷ [];
  mac_table = λ _. zeroed;
}

started : start (drop 1 args) ≡ some switch
unfolding start parse_args parse_vlan_args strchr
started = refl

-- The two messages of a test.
abbrev input_messages : Bytes → List Message
input_messages frame =
    record { type = 0; body = flatten macs } ∷ record { type = 1; body = frame } ∷ []

-- The frame goes out to interfaces 2 and 3.
abbrev flooded : Bytes → List Message
flooded frame = record { type = 2; body = frame } ∷ record { type = 3; body = frame } ∷ []

abbrev broadcast_frame : Bytes
broadcast_frame = broadcast ++ (mac1 ++ (8 ∷ 0 ∷ b't' ∷ b'e' ∷ b's' ∷ b't' ∷ []))

broadcast_input :
    flooding_input broadcast (b't' ∷ b'e' ∷ b's' ∷ b't' ∷ [])
    ≡ encode_all (input_messages broadcast_frame)
unfolding flooding_input flatten send_macs send_frame build_frame
broadcast_input = refl

-- What the callbacks have written at the end.
written : Result (Bool × Running) → Bytes
written (ok r) = r.1.out
written (err _) = []

broadcast_flooded :
    (time : ℕ → ℕ)
    → written (
        deliver
          (handlers time)
          (input_messages broadcast_frame)
          false
          (record { sw = switch; out = []; step = 0 }))
      ≡ encode_all (flooded broadcast_frame)
unfolding written deliver dispatch deliver_macs flatten handlers handle_mac set_mac handle_frame
    port parse_frame frame_vlan interface_in_vlan learn_mac store mac_hash hash_bytes
    is_multicast_or_broadcast forward flood_frame forward_frame has_vlan retag Forward.send_frame
broadcast_flooded time = refl

abbrev multicast_frame : Bytes
multicast_frame = multicast ++ (mac1 ++ (8 ∷ 0 ∷ b'm' ∷ b'c' ∷ b'a' ∷ b's' ∷ b't' ∷ []))

multicast_input :
    flooding_input multicast (b'm' ∷ b'c' ∷ b'a' ∷ b's' ∷ b't' ∷ [])
    ≡ encode_all (input_messages multicast_frame)
unfolding flooding_input flatten send_macs send_frame build_frame
multicast_input = refl

multicast_flooded :
    (time : ℕ → ℕ)
    → written (
        deliver
          (handlers time)
          (input_messages multicast_frame)
          false
          (record { sw = switch; out = []; step = 0 }))
      ≡ encode_all (flooded multicast_frame)
unfolding written deliver dispatch deliver_macs flatten handlers handle_mac set_mac handle_frame
    port parse_frame frame_vlan interface_in_vlan learn_mac store mac_hash hash_bytes
    is_multicast_or_broadcast forward flood_frame forward_frame has_vlan retag Forward.send_frame
multicast_flooded time = refl

-- The reads of an input get all of it, each a byte or more.
abbrev pub IsCut : (Bytes → List Bytes) → Type 0
IsCut cut = (input : Bytes) → (flatten (cut input) ≡ input) × All (λ c. 0 < length c) (cut input)

taken-nil : (answers : List Bool) → taken answers [] ≡ []
unfolding taken
taken-nil [] = refl
taken-nil (false ∷ answers) = taken-nil answers
taken-nil (true ∷ answers) = refl

none_back :
    (frame : Bytes) (place : ℕ) {m : Message}
    → get_elem? (flooded frame) place ≡ some m
    → m.type ≢ 1
none_back frame zero e t =
    let same = ap (λ x. x.type) (some-injective _ _ e) in omega (arith, same, t)
none_back frame (suc zero) e t =
    let same = ap (λ x. x.type) (some-injective _ _ e) in omega (arith, same, t)
none_back frame (suc (suc place)) e t = absurd (cc e)

on_two_three :
    (frame : Bytes)
    → IsAmong 2 (flooded frame) × IsAmong 3 (flooded frame) × (¬ IsAmong 1 (flooded frame))
on_two_three frame = (
  record { message = record { type = 2; body = frame }; place = 0; exists = refl; type_is = refl },
  record { message = record { type = 3; body = frame }; place = 1; exists = refl; type_is = refl },
  λ a. none_back frame a.place a.exists a.type_is,
)

module _ (time : ℕ → ℕ) (cut : Bytes → List Bytes) (whole : IsCut cut) where
  output-written :
      (ms : List Message)
      → All Fits ms
      → output time switch (cut (encode_all ms))
        ≡ written (deliver (handlers time) ms false (record { sw = switch; out = []; step = 0 }))
  unfolding output written
  output-written ms fits =
      let s : Running = record { sw = switch; out = []; step = 0 } in
      let same =
        loop-deliver (handlers time) (cut (encode_all ms)) ms s (whole (encode_all ms)).1 fits
          (whole (encode_all ms)).0 in
      rw (output, same)
        (elim (Result-cases (deliver (handlers time) ms false s)) [
          | inl (r, e) ↦ rw e refl
          | inr (x, e) ↦ rw e refl
        ])

  program_started : start_program time cut args ≡ some (λ input. output time switch (cut input))
  unfolding start_program program_of
  program_started = ap (program_of time cut) started

  -- The switch passes both tests, whatever its clock shows and however its reads cut what it is sent,
  -- if the test finds two messages readable.
  pub start_program-passes :
      (third : Bool)
      → (test_broadcast_flooding (start_program time cut) (true, true, third) ≡ 0)
        × (test_multicast (start_program time cut) (true, true, third) ≡ 0)
  unfolding taken flatten
  start_program-passes third =
      let ms = flooded broadcast_frame in
      let ns = flooded multicast_frame in
      let out : output time switch (cut (flooding_input broadcast (b't' ∷ b'e' ∷ b's' ∷ b't' ∷ [])))
          ≡ encode_all ms =
        ap (λ i. output time switch (cut i)) broadcast_input
        ∙ output-written (input_messages broadcast_frame) (omega arith)
        ∙ broadcast_flooded time in
      let out' : output time switch
            (cut (flooding_input multicast (b'm' ∷ b'c' ∷ b'a' ∷ b's' ∷ b't' ∷ [])))
          ≡ encode_all ns =
        ap (λ i. output time switch (cut i)) multicast_input
        ∙ output-written (input_messages multicast_frame) (omega arith)
        ∙ multicast_flooded time in
      let taken_ms : taken (true ∷ true ∷ third ∷ []) ms ≡ ms =
        ap
          (λ ts.
            record { type = 2; body = broadcast_frame }
            ∷ record { type = 3; body = broadcast_frame }
            ∷ ts)
          (taken-nil (third ∷ [])) in
      (
        (test_broadcast_flooding_lem (start_program time cut)
              (λ input. output time switch (cut input)) (true, true, third) ms program_started out
              (omega arith)).1
            (rw taken_ms (on_two_three broadcast_frame)),
        test_multicast-IsAmong (start_program time cut) (λ input. output time switch (cut input))
            third (record { type = 2; body = multicast_frame })
            (record { type = 3; body = multicast_frame }) [] program_started out' (omega arith)
            (inl refl) (inr refl),
      )

-- ===== src/VswitchTest/Flooding.antt =====
-- What the tests of flooding see of the program under test.
use project_and_training_3_n.Base.{
  ℕ, ◌≤◌, ◌≡◌, ◌↔◌, ◌⊎◌, refl, sym, ◌∙◌, Bool, true, false, not, ◌||◌, Option, some, List, [], ◌∷◌,
  Bytes, ◌==◌, if◌then◌else◌, le→ltb, All, arith,
}
use project_and_training_3_n.Wire.Delivery.{Message, encode_all}
use project_and_training_3_n.VswitchTest.{
  Answers, answer_list, args, broadcast, multicast, flooding_input, test_broadcast_flooding,
  test_multicast,
}
use project_and_training_3_n.VswitchTest.Hearing.{
  IsSmall, taken, IsAmong, among, among-IsAmong, IsAmong-among, not-IsAmong, receive_frames-heard,
  received_on-among, counted, count-counted,
}

-- The last tests of `test_broadcast_flooding`.
abbrev verdict : Bool → Bool → Bool → ℕ
verdict on2 on3 on1 = if not on2 || not on3 then 1 else if on1 then 1 else 0

passes :
    (on2 on3 on1 : Bool) → (verdict on2 on3 on1 ≡ 0) ↔ ((on2 ≡ true) × (on3 ≡ true) × (on1 ≡ false))
passes on2 on3 on1 = (λ e. ground arith, λ e. ground arith)

-- What `test_broadcast_flooding` computes.
broadcast-result :
    (start_vswitch : List Bytes → Option (Bytes → Bytes)) (vswitch : Bytes → Bytes)
    (answers : Answers) (ms : List Message)
    → start_vswitch args ≡ some vswitch
    → vswitch (flooding_input broadcast (b't' ∷ b'e' ∷ b's' ∷ b't' ∷ [])) ≡ encode_all ms
    → All IsSmall ms
    → test_broadcast_flooding start_vswitch answers
      ≡ verdict
          (among 2 (taken (answer_list answers) ms))
          (among 3 (taken (answer_list answers) ms))
          (among 1 (taken (answer_list answers) ms))
unfolding test_broadcast_flooding
broadcast-result start_vswitch vswitch answers ms started out v =
    rw
      (
        test_broadcast_flooding,
        started,
        out,
        receive_frames-heard answers ms v,
        received_on-among 2 (answer_list answers) ms,
        received_on-among 3 (answer_list answers) ms,
        received_on-among 1 (answer_list answers) ms,
      )
      refl

-- Let the program answer the test's input with messages that fit its buffer, and take those that the
-- test finds readable. `test_broadcast_flooding` is passed exactly if one of them is for interface
-- 2, one for interface 3 and none for interface 1; what the frames hold does not matter.
pub test_broadcast_flooding_lem :
    (start_vswitch : List Bytes → Option (Bytes → Bytes)) (vswitch : Bytes → Bytes)
    (answers : Answers) (ms : List Message)
    → start_vswitch args ≡ some vswitch
    → vswitch (flooding_input broadcast (b't' ∷ b'e' ∷ b's' ∷ b't' ∷ [])) ≡ encode_all ms
    → All IsSmall ms
    → (test_broadcast_flooding start_vswitch answers ≡ 0) ↔ (
        IsAmong 2 (taken (answer_list answers) ms)
        × IsAmong 3 (taken (answer_list answers) ms)
        × (¬ IsAmong 1 (taken (answer_list answers) ms)))
test_broadcast_flooding_lem start_vswitch vswitch answers ms started out v =
    let heard_ms = taken (answer_list answers) ms in
    let result = broadcast-result start_vswitch vswitch answers ms started out v in
    let pass = passes (among 2 heard_ms) (among 3 heard_ms) (among 1 heard_ms) in
    (
      λ zero.
          let p = pass.0 (sym result ∙ zero) in
          (
            among-IsAmong 2 heard_ms p.0,
            among-IsAmong 3 heard_ms p.1,
            (not-IsAmong 1 heard_ms).0 p.2,
          ),
      λ p.
          result
          ∙ pass.1 (
            IsAmong-among 2 heard_ms p.0.place p.0.exists p.0.type_is,
            IsAmong-among 3 heard_ms p.1.place p.1.exists p.1.type_is,
            (not-IsAmong 1 heard_ms).1 p.2,
          ),
    )

one-counted : (m : Message) → (m.type ≡ 2) ⊎ (m.type ≡ 3) → (m.type == 2 || m.type == 3) ≡ true
one-counted m e = ground arith

two-counted :
    (m m' : Message) (ms : List Message)
    → (m.type ≡ 2) ⊎ (m.type ≡ 3)
    → (m'.type ≡ 2) ⊎ (m'.type ≡ 3)
    → 2 ≤ counted (m ∷ m' ∷ ms)
unfolding counted
two-counted m m' ms e e' = rw (counted, one-counted m e, one-counted m' e') (omega arith)

multicast-counted :
    (start_vswitch : List Bytes → Option (Bytes → Bytes)) (vswitch : Bytes → Bytes)
    (answers : Answers) (ms : List Message)
    → start_vswitch args ≡ some vswitch
    → vswitch (flooding_input multicast (b'm' ∷ b'c' ∷ b'a' ∷ b's' ∷ b't' ∷ [])) ≡ encode_all ms
    → All IsSmall ms
    → 2 ≤ counted (taken (answer_list answers) ms)
    → test_multicast start_vswitch answers ≡ 0
unfolding test_multicast
multicast-counted start_vswitch vswitch answers ms started out v enough =
    rw
      (
        test_multicast,
        started,
        out,
        receive_frames-heard answers ms v,
        count-counted (answer_list answers) ms,
        le→ltb (counted (taken (answer_list answers) ms)) 2 enough,
      )
      refl

-- `test_multicast` only counts: it is passed as soon as two of the messages that it takes are for
-- interfaces 2 and 3, or both for one of them, whatever else was sent and to whom, so that it also
-- passes a program that floods to one port twice, or back to the sender.
pub test_multicast-IsAmong :
    (start_vswitch : List Bytes → Option (Bytes → Bytes)) (vswitch : Bytes → Bytes) (third : Bool)
    (m m' : Message) (ms : List Message)
    → start_vswitch args ≡ some vswitch
    → vswitch (flooding_input multicast (b'm' ∷ b'c' ∷ b'a' ∷ b's' ∷ b't' ∷ []))
      ≡ encode_all (m ∷ m' ∷ ms)
    → All IsSmall (m ∷ m' ∷ ms)
    → (m.type ≡ 2) ⊎ (m.type ≡ 3)
    → (m'.type ≡ 2) ⊎ (m'.type ≡ 3)
    → test_multicast start_vswitch (true, true, third) ≡ 0
unfolding taken
test_multicast-IsAmong start_vswitch vswitch third m m' ms started out v e e' =
    multicast-counted start_vswitch vswitch (true, true, third) (m ∷ m' ∷ ms) started out v
      (two-counted m m' (taken (third ∷ []) ms) e e')

-- ===== src/VswitchTest/Tests.antt =====
-- The tests of test-vswitch.c with programs that flood rightly, and with one that does not.
use mathlib.Core.List.{flatten}
use project_and_training_3_n.Base.{
  ℕ, ◌≡◌, ◌↔◌, inl, refl, true, false, Option, some, List, [], ◌∷◌, Bytes, append-nil, arith,
}
use project_and_training_3_n.Wire.Delivery.{Message, encode_all}
use project_and_training_3_n.VswitchTest.{
  receive_frame, receive_frames, broken, got, test_broadcast_flooding, test_multicast,
}
use project_and_training_3_n.VswitchTest.Hearing.{taken, IsAmong}
use project_and_training_3_n.VswitchTest.Flooding.{
  test_broadcast_flooding_lem, test_multicast-IsAmong,
}
use project_and_training_3_n.VswitchTest.Passing.{start_program, IsCut, start_program-passes}

-- A program that sends the same frame to two interfaces, whatever it reads.
abbrev sends : ℕ → ℕ → List Message
sends n k = record { type = n; body = 7 ∷ [] } ∷ record { type = k; body = 7 ∷ [] } ∷ []

abbrev starts : List Message → List Bytes → Option (Bytes → Bytes)
starts ms argv = some (λ input. encode_all ms)

test_broadcast_flooding_lem_example :
    (test_broadcast_flooding (starts (sends 2 3)) (true, true, false) ≡ 0)
    ↔ (IsAmong 2 (sends 2 3) × IsAmong 3 (sends 2 3) × (¬ IsAmong 1 (sends 2 3)))
unfolding taken
test_broadcast_flooding_lem_example =
    test_broadcast_flooding_lem (starts (sends 2 3)) (λ input. encode_all (sends 2 3))
      (true, true, false) (sends 2 3) refl refl (omega arith)

test_multicast-IsAmong_example : test_multicast (starts (sends 2 2)) (true, true, false) ≡ 0
test_multicast-IsAmong_example =
    test_multicast-IsAmong (starts (sends 2 2)) (λ input. encode_all (sends 2 2)) false
      (record { type = 2; body = 7 ∷ [] }) (record { type = 2; body = 7 ∷ [] }) [] refl refl
      (omega arith) (inl refl) (inl refl)

abbrev one_read : Bytes → List Bytes
one_read [] = []
one_read (b ∷ bs) = (b ∷ bs) ∷ []

one_read-IsCut : IsCut one_read
unfolding flatten
one_read-IsCut [] = (refl, tt)
one_read-IsCut (b ∷ bs) = (append-nil (b ∷ bs), (omega arith, tt))

start_program-passes_example :
    (test_broadcast_flooding (start_program (λ i. i) one_read) (true, true, false) ≡ 0)
    × (test_multicast (start_program (λ i. i) one_read) (true, true, false) ≡ 0)
start_program-passes_example = start_program-passes (λ i. i) one_read one_read-IsCut false

-- A frame back to the sender fails the first test, and a header alone breaks the reading.
rejected :
    (test_broadcast_flooding (starts (sends 2 1)) (true, true, false) ≡ 1)
    × (test_multicast (starts (sends 2 1)) (true, true, false) ≡ 1)
    × (receive_frame 128 true (0 ∷ 3 ∷ 0 ∷ 1 ∷ []) ≡ (broken, []))
    × (receive_frame 128 true (0 ∷ 4 ∷ 0 ∷ 1 ∷ []) ≡ (got 1 [], []))
unfolding test_broadcast_flooding test_multicast receive_frames receive_frame
rejected = (refl, refl, refl, refl)

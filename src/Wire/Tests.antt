-- ===== src/Wire/Tests.antt =====
-- The protocol on concrete streams.
use mathlib.Core.List.{flatten}
use project_and_training_3_n.Base.{
  ℕ, ◌+◌, ◌-◌, ◌<◌, ◌≡◌, refl, true, false, some, List, [], ◌∷◌, ◌++◌, Bytes, min, length, ok,
  ◌>>=◌, All, arith,
}
use project_and_training_3_n.Wire.{print}
use project_and_training_3_n.Wire.Write.{
  Kernel, Ending, exited, returned, write_all, Wrote, write_all_lem,
}
use project_and_training_3_n.Wire.Loop.{
  Handlers, LoopState, buffer_size, deliver_macs, dispatch, consume, drain, receive, run, loop,
}
use project_and_training_3_n.Wire.Stream.{loop-flatten}
use project_and_training_3_n.Wire.Delivery.{Message, deliver, IsByte, receive_room, loop-deliver}

-- A kernel that takes at most three bytes, and one that fails at its second call.
abbrev slow : Kernel
slow i n = min 3 n

abbrev failing : Kernel
failing i n = 2 - i - i

abbrev text : Bytes
text = 1 ∷ 2 ∷ 3 ∷ 4 ∷ 5 ∷ []

write_slow : write_all slow text ≡ some (returned, text)
unfolding write_all
write_slow = refl

write_failing : write_all failing text ≡ some (exited, 1 ∷ 2 ∷ [])
unfolding write_all
write_failing = refl

print_hi : print (b'h' ∷ b'i' ∷ []) ≡ 0 ∷ 6 ∷ 0 ∷ 0 ∷ b'h' ∷ b'i' ∷ []
unfolding print
print_hi = refl

write_all_lem_example : (r : Ending × Bytes) × (write_all failing text ≡ some r) × Wrote text r
write_all_lem_example = write_all_lem failing text

-- A program that notes the numbers that it was called with: 100 for a control message.
abbrev noting : Handlers (List ℕ)
noting = record {
  frame = λ n body s. ok (s ++ n ∷ []);
  control = λ body s. ok (s ++ 100 ∷ []);
  mac = λ n addr s. ok (s ++ (200 + n) ∷ []);
}

abbrev messages : List Message
messages =
    record { type = 0; body = 1 ∷ 2 ∷ 3 ∷ 4 ∷ 5 ∷ 6 ∷ 7 ∷ 8 ∷ 9 ∷ 10 ∷ 11 ∷ 12 ∷ [] }
    ∷ record { type = 2; body = 7 ∷ [] }
    ∷ record { type = 0; body = b'x' ∷ [] }
    ∷ []

-- The first read ends within the second message.
abbrev chunks : List Bytes
chunks =
    (0 ∷ 16 ∷ 0 ∷ 0 ∷ 1 ∷ 2 ∷ 3 ∷ 4 ∷ 5 ∷ 6 ∷ 7 ∷ 8 ∷ 9 ∷ 10 ∷ 11 ∷ 12 ∷ 0 ∷ 5 ∷ [])
    ∷ (0 ∷ 2 ∷ 7 ∷ 0 ∷ 5 ∷ 0 ∷ 0 ∷ b'x' ∷ [])
    ∷ []

loop-noting :
    loop noting chunks []
    ≡ ok (record { buf = []; have_mac = true; app = 201 ∷ 202 ∷ 2 ∷ 100 ∷ [] })
unfolding loop run receive drain consume dispatch deliver_macs
loop-noting = refl

-- A message that is only a header waits for the next byte.
loop_header_only :
    loop noting ((0 ∷ 4 ∷ 0 ∷ 1 ∷ []) ∷ []) []
    ≡ ok (record { buf = 0 ∷ 4 ∷ 0 ∷ 1 ∷ []; have_mac = false; app = [] })
unfolding loop run receive drain
loop_header_only = refl

loop-flatten_example :
    loop noting chunks []
    ≡ receive noting (record { buf = []; have_mac = false; app = [] }) (flatten chunks)
loop-flatten_example = loop-flatten noting chunks [] (omega arith)

loop-deliver_example : loop noting chunks [] ≡ (
    deliver noting messages false [] >>= λ r. ok (record { buf = []; have_mac = r.0; app = r.1 }))
unfolding flatten
loop-deliver_example = loop-deliver noting chunks messages [] (omega arith) (omega arith) refl

abbrev idle : LoopState (List ℕ)
idle = record { buf = []; have_mac = true; app = [] }

receive_room_example : (length {A = ℕ} (0 ∷ 9 ∷ []) < buffer_size) × All IsByte (0 ∷ 9 ∷ [])
unfolding receive drain consume dispatch
receive_room_example =
    receive_room noting idle (0 ∷ 5 ∷ 0 ∷ 1 ∷ 8 ∷ 0 ∷ 9 ∷ [])
      {st' = record { buf = 0 ∷ 9 ∷ []; have_mac = true; app = 1 ∷ [] }} (omega arith) refl

-- ===== src/Harness/Receive.antt =====
-- `trecv`, `expect_silence` and `run` of harness.c.
use project_and_training_3_n.Base.{
  ℕ, zero, suc, ◌+◌, ◌-◌, ◌%◌, ◌^◌, min, Bool, true, false, ◌&&◌, Option, none, some, List, [], ◌∷◌,
  ◌++◌, Bytes, ntohs, ◌==◌, leb, if◌then◌else◌, length, take, drop, Result, ok, err, Fault,
}
use project_and_training_3_n.Wire.{header_size}
use project_and_training_3_n.Harness.{Wait, timeout, failed, readable, Harness, memory}

-- The fields of `hdr`, which is always the start of `child_buf`.
abbrev pub size_of : Harness → ℕ
size_of h = ntohs (memory h)

abbrev pub type_of : Harness → ℕ
type_of h = ntohs (drop 2 (memory h))

-- A whole message is in `child_buf`.
unfoldable pub is_complete : Harness → Bool
is_complete h = leb header_size (length h.child_buf) && leb (size_of h) (length h.child_buf)

-- What `read` gets, with room for what is left of the array.
abbrev pub read_bytes : ℕ → Harness → Bytes
read_bytes n h = take (min n (length h.behind)) h.pipe

abbrev pub append_read : Bytes → Harness → Harness
append_read got h = record {
  child_buf = h.child_buf ++ got;
  behind = drop (length got) h.behind;
  pipe = drop (length got) h.pipe;
}

-- The `memmove` behind a message.
unfoldable pub remove_message : Harness → Harness
remove_message h =
    let rest = drop (size_of h) h.child_buf in
    record { child_buf = rest; behind = drop (length rest) (memory h); pipe = h.pipe }

-- The inner loop of `trecv`: whether a message is complete, and the waits that are left. An end of
-- the list of waits is a time-out.
unfoldable pub fill : List Wait → Harness → Bool × Harness × List Wait
unfolding is_complete
fill [] h = (is_complete h, h, [])
fill (wait ∷ waits) h = elim (is_complete h) [
  | true ↦ (true, h, wait ∷ waits)
  | false ↦ elim wait [
    | timeout ↦ (false, h, waits)
    | failed ↦ (false, h, waits)
    | readable n ↦ elim (read_bytes n h) [
      | [] ↦ (false, h, waits)
      | b ∷ bs ↦ fill waits (append_read (b ∷ bs) h)
    ]
  ]
]

-- A `Receiver` with its closures: the type of the message, what stands in `child_buf` behind the
-- header, and the length of the body; the code, and the closure that it may change.
abbrev pub Receiver : Type 0 → Type 0
Receiver C = C → ℕ → Bytes → ℕ → Result (ℕ × C)

-- How `trecv` ends: with a code, with a fault, or not within the fuel.
pub data Outcome (C : Type 0) : Type 0 where
  done : ℕ → C → Harness → List Wait → Outcome C
  fault : Fault → Outcome C
  running : Outcome C

-- `size - sizeof (hdr)`, a `size_t`.
abbrev pub body_size : ℕ → ℕ
body_size size = (size + 2 ^ 64 - header_size) % 2 ^ 64

-- The outer loop, with the number of attempts that are left.
unfoldable pub attempt : {C : Type 0} → Receiver C → ℕ → ℕ → C → Harness → List Wait → Outcome C
unfolding fill remove_message
attempt recv zero n cls h waits = running
attempt recv (suc fuel) zero cls h waits = done 1 cls h waits
attempt recv (suc fuel) (suc n) cls h waits =
    let (full, h', waits') = fill waits h in
    elim full [
      | false ↦ done 1 cls h' waits'
      | true ↦
          elim (recv cls (type_of h') (drop header_size (memory h')) (body_size (size_of h'))) [
            | err f ↦ fault f
            | ok (ret, cls') ↦ elim (ret == 0) [
              | true ↦ done 0 cls' (remove_message h') waits'
              | false ↦
                  attempt recv fuel (if ret == 2 then suc n else n) cls' (remove_message h') waits'
            ]
          ]
    ]

-- `skip_until_match--` is compared with `UINT_MAX`.
abbrev pub attempts : ℕ → ℕ
attempts skip = if skip == 2 ^ 32 - 1 then 0 else suc skip

-- Every attempt takes a message away, or counts down.
unfoldable pub trecv : {C : Type 0} → ℕ → Receiver C → C → Harness → List Wait → Outcome C
unfolding attempt
trecv skip recv cls h waits =
    attempt recv (suc (attempts skip + (length h.child_buf + length h.pipe))) (attempts skip) cls h
      waits

-- The loops of `expect_silence` that skip texts: `none` if they have not ended within the fuel.
unfoldable pub skip_texts : ℕ → Harness → Option Harness
unfolding is_complete remove_message
skip_texts zero h = none
skip_texts (suc fuel) h = elim (is_complete h && type_of h == 0) [
  | false ↦ some h
  | true ↦ skip_texts fuel (remove_message h)
]

-- The code, the state and the waits that are left. The fuel is for each of the loops over texts.
unfoldable pub await_silence : ℕ → List Wait → Harness → Option (ℕ × Harness × List Wait)
unfolding is_complete skip_texts remove_message
await_silence fuel [] h = elim (is_complete h) [
  | true ↦ some (1, remove_message h, [])
  | false ↦ some (0, h, [])
]
await_silence fuel (wait ∷ waits) h = elim (is_complete h) [
  | true ↦ some (1, remove_message h, wait ∷ waits)
  | false ↦ elim wait [
    | timeout ↦ some (0, h, waits)
    | failed ↦ some (1, h, waits)
    | readable n ↦ elim (read_bytes n h) [
      | [] ↦ some (1, h, waits)
      | b ∷ bs ↦ elim (skip_texts fuel (append_read (b ∷ bs) h)) [
        | none ↦ none
        | some h' ↦ await_silence fuel waits h'
      ]
    ]
  ]
]

unfoldable pub expect_silence : ℕ → Harness → List Wait → Option (ℕ × Harness × List Wait)
unfolding await_silence
expect_silence fuel h waits = elim (skip_texts fuel h) [
  | none ↦ none
  | some h' ↦ await_silence fuel waits h'
]

-- `run` of the commands of a test, each of which returns a code: the first that is not 0, or 0.
unfoldable pub run : {S : Type 0} → List (S → ℕ × S) → S → ℕ × S
run [] s = (0, s)
run (command ∷ commands) s =
    let (ret, s') = command s in let rest = run commands s' in if ret == 0 then rest else (ret, s')

-- ===== src/VswitchTest/Hearing.antt =====
-- The messages that the tests of flooding take from the program under test.
use mathlib.Core.Option.{some-injective}
use project_and_training_3_n.Base.{
  ℕ, zero, suc, ◌+◌, ◌-◌, ◌%◌, ◌^◌, ◌≤◌, ◌≡◌, ◌↔◌, inl, inr, refl, ap, ◌∙◌, Bool, true, false, ◌||◌,
  some, List, [], ◌∷◌, ◌++◌, Bytes, ntohs, ◌==◌, if◌then◌else◌, ==_iff, ltb, Bool-cases, length,
  take, drop, take_append, drop_append, get_elem?, All, arith,
}
use project_and_training_3_n.Wire.{header_size}
use project_and_training_3_n.Wire.Delivery.{Message, encode, encode_all}
use project_and_training_3_n.Harness.Stream.{IsSized}
use project_and_training_3_n.VswitchTest.{
  Received, nothing, broken, got, receive_frame, receive_each, receive_frames, Answers, answer_list,
  recv_buf_size, is_from, received_on, count,
}

-- A message that fits into the buffer of the test.
abbrev pub IsSmall : Message → Type 0
IsSmall m = IsSized m × (length m.body ≤ recv_buf_size)

-- The messages that the test takes: one for each answer that the pipe is readable.
unfoldable pub taken : List Bool → List Message → List Message
taken [] ms = []
taken (false ∷ answers) ms = taken answers ms
taken (true ∷ answers) [] = []
taken (true ∷ answers) (m ∷ ms) = m ∷ taken answers ms

-- One of the messages is for interface `n`.
pub record IsAmong (n : ℕ) (ms : List Message) : Type 0 where
  pub message : Message
  pub place : ℕ
  pub exists : get_elem? ms place ≡ some message
  pub type_is : message.type ≡ n

receive_frame-encode :
    (m : Message) (rest : Bytes)
    → IsSmall m
    → receive_frame recv_buf_size true (encode m ++ rest) ≡ (got m.type m.body, rest)
unfolding receive_frame
receive_frame-encode m rest v =
    let size : (ntohs (encode m ++ rest) + 2 ^ 16 - header_size) % 2 ^ 16 ≡ length m.body =
      omega arith in
    let type : ntohs (drop 2 (take header_size (encode m ++ rest))) ≡ m.type = omega arith in
    let fits : ltb recv_buf_size (length m.body) ≡ false = ground arith in
    let whole : (length m.body == length m.body) ≡ true =
      (==_iff (length m.body) (length m.body)).1 refl in
    rw (size, take_append m.body rest _ refl, drop_append m.body rest _ refl, type, fits, whole)
      refl

-- What the calls of `receive_frame` return.
pub heard : List Bool → List Message → List Received
heard [] ms = []
heard (false ∷ answers) ms = nothing ∷ heard answers ms
heard (true ∷ answers) [] = broken ∷ heard answers []
heard (true ∷ answers) (m ∷ ms) = got m.type m.body ∷ heard answers ms

receive_each-heard :
    (answers : List Bool) (ms : List Message)
    → All IsSmall ms
    → receive_each answers (encode_all ms) ≡ heard answers ms
unfolding receive_each heard
receive_each-heard [] ms v = refl
receive_each-heard (false ∷ answers) ms v = ap (◌∷◌ nothing) (receive_each-heard answers ms v)
receive_each-heard (true ∷ answers) [] v = ap (◌∷◌ broken) (receive_each-heard answers [] v)
receive_each-heard (true ∷ answers) (m ∷ ms) v =
    ap (λ p. p.0 ∷ receive_each answers p.1) (receive_frame-encode m (encode_all ms) v.0)
    ∙ ap (◌∷◌ (got m.type m.body)) (receive_each-heard answers ms v.1)

pub receive_frames-heard :
    (answers : Answers) (ms : List Message)
    → All IsSmall ms
    → receive_frames answers (encode_all ms) ≡ heard (answer_list answers) ms
unfolding receive_frames
receive_frames-heard answers ms v = receive_each-heard (answer_list answers) ms v

pub among : ℕ → List Message → Bool
among n [] = false
among n (m ∷ ms) = m.type == n || among n ms

pub among-IsAmong : (n : ℕ) (ms : List Message) → among n ms ≡ true → IsAmong n ms
unfolding among
among-IsAmong n [] e = absurd (cc e)
among-IsAmong n (m ∷ ms) e = elim (Bool-cases (m.type == n)) [
  | inl here ↦ record { message = m; place = 0; exists = refl; type_is = (==_iff m.type n).0 here }
  | inr other ↦
      let a = among-IsAmong n ms (rw (among, other) at e) in
      record { message = a.message; place = suc a.place; exists = a.exists; type_is = a.type_is }
]

pub IsAmong-among :
    (n : ℕ) (ms : List Message) (place : ℕ) {m : Message}
    → get_elem? ms place ≡ some m
    → m.type ≡ n
    → among n ms ≡ true
unfolding among
IsAmong-among n [] place e t = absurd (cc e)
IsAmong-among n (m ∷ ms) zero e t =
    rw ((==_iff m.type n).1 (ap (λ x. x.type) (some-injective _ _ e) ∙ t)) refl
IsAmong-among n (m ∷ ms) (suc place) e t = ground (arith, IsAmong-among n ms place e t)

received_on-nil : (n : ℕ) (answers : List Bool) → received_on n (heard answers []) ≡ false
unfolding heard received_on is_from
received_on-nil n [] = refl
received_on-nil n (false ∷ answers) = received_on-nil n answers
received_on-nil n (true ∷ answers) = received_on-nil n answers

pub received_on-among :
    (n : ℕ) (answers : List Bool) (ms : List Message)
    → received_on n (heard answers ms) ≡ among n (taken answers ms)
unfolding heard received_on taken among is_from
received_on-among n [] ms = refl
received_on-among n (false ∷ answers) ms = received_on-among n answers ms
received_on-among n (true ∷ answers) [] = received_on-nil n answers
received_on-among n (true ∷ answers) (m ∷ ms) =
    ap (λ b. m.type == n || b) (received_on-among n answers ms)

-- How many of the messages are for interface 2 or 3.
unfoldable pub counted : List Message → ℕ
counted [] = 0
counted (m ∷ ms) = if m.type == 2 || m.type == 3 then suc (counted ms) else counted ms

count-nil : (answers : List Bool) → count (heard answers []) ≡ 0
unfolding heard count is_from
count-nil [] = refl
count-nil (false ∷ answers) = count-nil answers
count-nil (true ∷ answers) = count-nil answers

pub count-counted :
    (answers : List Bool) (ms : List Message)
    → count (heard answers ms) ≡ counted (taken answers ms)
unfolding heard count taken counted is_from
count-counted [] ms = refl
count-counted (false ∷ answers) ms = count-counted answers ms
count-counted (true ∷ answers) [] = count-nil answers
count-counted (true ∷ answers) (m ∷ ms) =
    ap (λ k. if m.type == 2 || m.type == 3 then suc k else k) (count-counted answers ms)

pub not-IsAmong : (n : ℕ) (ms : List Message) → (among n ms ≡ false) ↔ ¬ IsAmong n ms
not-IsAmong n ms = (
  λ e a. let found = IsAmong-among n ms a.place a.exists a.type_is in absurd (cc (e, found)),
  λ no. elim (Bool-cases (among n ms)) [
    | inl found ↦ absurd (no (among-IsAmong n ms found))
    | inr e ↦ e
  ],
)

-- ===== src/Harness/Silence.antt =====
-- `expect_silence` against its meaning: a message that is no text.
use project_and_training_3_n.Base.{
  ℕ, ◌<◌, ◌+◌, ◌-◌, ◌≤◌, ◌≡◌, min, inl, inr, refl, sym, ap, ◌∙◌, true, false, ◌&&◌, List, [], ◌∷◌,
  ◌++◌, List-cases, ◌==◌, Bool-cases, length, drop, length-append, length-drop, length-take, Option,
  some, All, arith, append_assoc, subst,
}
use project_and_training_3_n.Wire.Delivery.{Message, encode_all}
use project_and_training_3_n.Harness.{Wait, timeout, failed, readable, Harness, child_buf_size}
use project_and_training_3_n.Harness.Receive.{
  type_of, is_complete, read_bytes, append_read, remove_message, await_silence, expect_silence,
}
use project_and_training_3_n.Harness.Skipping.{
  silence, silence-other, Comes, Room, nothing_complete, skip_texts-Skipped,
}
use project_and_training_3_n.Harness.Stream.{IsSized, Holds, incomplete, take-rest}
use project_and_training_3_n.Harness.First.{first_message}

-- What a call of `expect_silence` has come to.
record Settled (out : Option (ℕ × Harness × List Wait)) (ms : List Message) : Type 0 where
  state : Harness
  waits : List Wait
  result : out ≡ some ((silence ms).0, state, waits)
  rest : Holds state (silence ms).1

Settled-same :
    {out : Option (ℕ × Harness × List Wait)} {ms ns : List Message}
    → silence ms ≡ silence ns
    → Settled out ms
    → Settled out ns
Settled-same {out} e d = record {
  state = d.state;
  waits = d.waits;
  result = d.result ∙ ap (λ p. some (p.0, d.state, d.waits)) e;
  rest = subst (λ p. Holds d.state p.1) e d.rest;
}

-- A complete message that is no text.
Settled-message :
    (ws : List Wait) (h : Harness) (ms : List Message)
    → Room h ms
    → is_complete h ≡ true
    → (is_complete h && type_of h == 0) ≡ false
    → Settled (some (1, remove_message h, ws)) ms
unfolding silence
Settled-message ws h [] r whole stops = absurd (cc (whole, nothing_complete h r.holds))
Settled-message ws h (m ∷ ms) r whole stops =
    let f = first_message h m ms r.sized.0 r.holds whole in
    let other : (m.type == 0) ≡ false = ap (λ k. k == 0) (sym f.typed) ∙ rw whole at stops in
    Settled-same {ms = record { type = 1; body = [] } ∷ ms} (sym (silence-other m ms other))
      (record { state = remove_message h; waits = ws; result = refl; rest = f.after })

-- No complete message, and nothing more to read.
Settled-nothing :
    (ws : List Wait) (h : Harness) (ms : List Message)
    → Room h ms
    → is_complete h ≡ false
    → length h.pipe ≡ 0
    → Settled (some (0, h, ws)) ms
unfolding silence
Settled-nothing ws h [] r part empty = record {
  state = h;
  waits = ws;
  result = refl;
  rest = r.holds;
}
Settled-nothing ws h (m ∷ ms) r part empty = absurd (
    omega (arith, empty, incomplete h m (encode_all ms) r.sized.0 r.holds.stream r.holds.room part))

length-read :
    (n : ℕ) (h : Harness) (ms : List Message)
    → Room h ms
    → n ≤ length h.pipe
    → length (read_bytes n h) ≡ n
length-read n h ms r few =
    omega (arith, r.small, r.holds.room, length-take (min n (length h.behind)) h.pipe)

append_read-Room :
    (n : ℕ) (h : Harness) (ms : List Message)
    → Room h ms
    → n ≤ length h.pipe
    → Room (append_read (read_bytes n h) h) ms
append_read-Room n h ms r few =
    let got = read_bytes n h in
    let exact = length-read n h ms r few in
    record {
      holds = record {
        stream =
            append_assoc h.child_buf got (drop (length got) h.pipe)
            ∙ ap (◌++◌ h.child_buf) (take-rest (min n (length h.behind)) h.pipe)
            ∙ r.holds.stream;
        room = omega (
          arith,
          r.holds.room,
          r.small,
          exact,
          length-append h.child_buf got,
          length-drop (length got) h.behind,
        );
      };
      sized = r.sized;
      small =
          omega
            (arith, r.small, exact, length-append h.child_buf got, length-drop (length got) h.pipe);
    }

await_silence-Settled :
    (fuel : ℕ)
    → child_buf_size < fuel
    → (ws : List Wait) (h : Harness) (ms : List Message) → Room h ms
    → Comes (length h.pipe) ws
    → (is_complete h && type_of h == 0) ≡ false
    → Settled (await_silence fuel ws h) ms
unfolding await_silence
await_silence-Settled fuel enough [] h ms r come stops = elim (Bool-cases (is_complete h)) [
  | inl whole ↦ rw (await_silence, whole) (Settled-message [] h ms r whole stops)
  | inr part ↦ rw (await_silence, part) (Settled-nothing [] h ms r part come)
]
await_silence-Settled fuel enough (timeout ∷ ws) h ms r come stops =
    elim (Bool-cases (is_complete h)) [
      | inl whole ↦ rw (await_silence, whole) (Settled-message (timeout ∷ ws) h ms r whole stops)
      | inr part ↦ rw (await_silence, part) (Settled-nothing ws h ms r part come)
    ]
await_silence-Settled fuel enough (failed ∷ ws) h ms r come stops = absurd come
await_silence-Settled fuel enough (readable n ∷ ws) h ms r come stops =
    elim (Bool-cases (is_complete h)) [
      | inl whole ↦ rw (await_silence, whole) (Settled-message (readable n ∷ ws) h ms r whole stops)
      | inr part ↦
          let exact = length-read n h ms r come.1 in
          elim (List-cases (read_bytes n h)) [
            | inl empty ↦ absurd (
                let no : length (read_bytes n h) ≡ 0 = rw empty refl in
                omega (arith, exact, come.0))
            | inr (b, bs, got) ↦
                let all : length (b ∷ bs) ≡ n = ap length (sym got) ∙ exact in
                let room : Room (append_read (b ∷ bs) h) ms =
                  subst (λ g. Room (append_read g h) ms) got (append_read-Room n h ms r come.1) in
                let (h', ran, s) =
                  skip_texts-Skipped fuel (append_read (b ∷ bs) h) ms (omega (arith, room.small))
                    room in
                let left : length h'.pipe ≡ length h.pipe - n =
                  ap length s.pipe_is
                  ∙ length-drop (length (b ∷ bs)) h.pipe
                  ∙ ap (λ k. length h.pipe - k) all in
                rw (await_silence, part, got, ran)
                  (Settled-same s.same (
                    await_silence-Settled fuel enough ws h' s.left s.room
                      (subst (λ k. Comes k ws) (sym left) come.2) s.stops))
          ]
    ]

-- With messages of a size that fits, which fit into the buffer together, and reads that get them all
-- before the time is over, `expect_silence` ends, on any fuel above the size of the buffer: with 0 if all are texts, which it drops, and
-- otherwise with 1, when it has taken away what stands in front of the first other message, and
-- that message.
pub expect_silence-silence :
    (fuel : ℕ) (ws : List Wait) (h : Harness) (ms : List Message)
    → child_buf_size < fuel
    → All IsSized ms
    → Holds h ms
    → length h.child_buf + length h.pipe ≤ child_buf_size
    → Comes (length h.pipe) ws
    → (s : Harness × List Wait) × (expect_silence fuel h ws ≡ some ((silence ms).0, s.0, s.1))
      × Holds s.0 (silence ms).1
unfolding expect_silence
expect_silence-silence fuel ws h ms enough v holds small come =
    let (h', ran, s) =
      skip_texts-Skipped fuel h ms (omega arith)
        (record { holds = holds; sized = v; small = small }) in
    let d = Settled-same s.same (
      await_silence-Settled fuel enough ws h' s.left s.room
        (subst (λ p. Comes (length p) ws) (sym s.pipe_is) come) s.stops) in
    ((d.state, d.waits), rw (expect_silence, ran) d.result, d.rest)

-- ===== src/Harness/Skipping.antt =====
-- The texts that `expect_silence` drops.
use project_and_training_3_n.Base.{
  ℕ, zero, suc, ◌+◌, ◌-◌, ◌≤◌, ◌<◌, ◌≡◌, inl, inr, refl, sym, ap, ◌∙◌, true, false, ◌&&◌, List, [],
  ◌∷◌, ◌==◌, Bool-cases, length, length-drop, some, All, arith,
}
use project_and_training_3_n.Wire.Delivery.{Message}
use project_and_training_3_n.Wire.{header_size}
use project_and_training_3_n.Harness.{Wait, timeout, failed, readable, Harness, child_buf_size}
use project_and_training_3_n.Harness.Receive.{
  size_of, type_of, is_complete, remove_message, skip_texts,
}
use project_and_training_3_n.Harness.Stream.{and-true, IsSized, Holds, nothing_left}
use project_and_training_3_n.Harness.First.{First, first_message}

-- The code, and what is left after the first message that is no text.
unfoldable pub silence : List Message → ℕ × List Message
silence [] = (0, [])
silence (m ∷ ms) = elim (m.type == 0) [ true ↦ silence ms | false ↦ (1, ms) ]

-- The reads get the bytes of the pipe, some each time, until a time-out when they are all there.
abbrev pub Comes : ℕ → List Wait → Type 0
Comes k [] = k ≡ 0
Comes k (timeout ∷ ws) = k ≡ 0
Comes k (failed ∷ ws) = ⊥
Comes k (readable n ∷ ws) = (0 < n) × (n ≤ k) × Comes (k - n) ws

-- The messages are there, and fit into the buffer together.
pub record Room (h : Harness) (ms : List Message) : Type 0 where
  pub holds : Holds h ms
  pub sized : All IsSized ms
  pub small : length h.child_buf + length h.pipe ≤ child_buf_size

pub nothing_complete : (h : Harness) → Holds h [] → is_complete h ≡ false
unfolding is_complete
nothing_complete h r = let (empty, _) = nothing_left h r in rw empty refl

pub remove_message-Room :
    (h : Harness) (m : Message) (ms : List Message)
    → Room h (m ∷ ms)
    → First h m ms
    → Room (remove_message h) ms
unfolding remove_message
remove_message-Room h m ms r f = record {
  holds = f.after;
  sized = r.sized.1;
  small = omega (arith, r.small, length-drop (size_of h) h.child_buf);
}

-- The texts at the front of the buffer are gone, and nothing else.
pub record Skipped (h h' : Harness) (ms : List Message) : Type 0 where
  pub left : List Message
  pub same : silence left ≡ silence ms
  pub room : Room h' left
  pub pipe_is : h'.pipe ≡ h.pipe
  pub stops : (is_complete h' && type_of h' == 0) ≡ false

pub silence-text :
    (m : Message) (ms : List Message) → (m.type == 0) ≡ true → silence ms ≡ silence (m ∷ ms)
unfolding silence
silence-text m ms e = rw (silence, e) refl

pub silence-other :
    (m : Message) (ms : List Message) → (m.type == 0) ≡ false → silence (m ∷ ms) ≡ (1, ms)
unfolding silence
silence-other m ms e = rw (silence, e) refl

remove_message-pipe : (h : Harness) → (remove_message h).pipe ≡ h.pipe
unfolding remove_message
remove_message-pipe h = refl

fewer :
    (h : Harness) (m : Message) (ms : List Message) (fuel : ℕ)
    → First h m ms
    → length h.child_buf < suc fuel
    → is_complete h ≡ true
    → length (remove_message h).child_buf < fuel
unfolding remove_message is_complete
fewer h m ms fuel f few whole =
    let long : header_size ≤ length h.child_buf = ground arith in
    omega (arith, f.sized, long, length-drop (size_of h) h.child_buf)

pub skip_texts-Skipped :
    (fuel : ℕ) (h : Harness) (ms : List Message)
    → length h.child_buf < fuel
    → Room h ms
    → (h' : Harness) × (skip_texts fuel h ≡ some h') × Skipped h h' ms
unfolding skip_texts
skip_texts-Skipped zero h ms few r = absurd (omega arith)
skip_texts-Skipped (suc fuel) h [] few r = (
  h,
  rw (skip_texts, nothing_complete h r.holds) refl,
  record {
    left = [];
    same = refl;
    room = r;
    pipe_is = refl;
    stops = rw (nothing_complete h r.holds) refl;
  },
)
skip_texts-Skipped (suc fuel) h (m ∷ ms) few r =
    elim (Bool-cases (is_complete h && type_of h == 0)) [
      | inr other ↦ (
        h,
        rw (skip_texts, other) refl,
        record { left = m ∷ ms; same = refl; room = r; pipe_is = refl; stops = other },
      )
      | inl text ↦
          let (whole, zero_type) = and-true (is_complete h) (type_of h == 0) text in
          let f = first_message h m ms r.sized.0 r.holds whole in
          let (h', ran, s) =
            skip_texts-Skipped fuel (remove_message h) ms (fewer h m ms fuel f few whole)
              (remove_message-Room h m ms r f) in
          (
            h',
            rw (skip_texts, text) ran,
            record {
              left = s.left;
              same = s.same ∙ silence-text m ms (ap (λ k. k == 0) (sym f.typed) ∙ zero_type);
              room = s.room;
              pipe_is = s.pipe_is ∙ remove_message-pipe h;
              stops = s.stops;
            },
          )
    ]

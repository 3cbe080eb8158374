-- ===== src/Harness/Endless.antt =====
-- A text of size 0, which the harness can never take away.
use project_and_training_3_n.Base.{
  ℕ, zero, suc, ◌≤◌, ◌≡◌, refl, ap, true, length, drop, drop_append, ok, none, List, [], ◌∷◌, arith,
}
use project_and_training_3_n.Wire.{header_size}
use project_and_training_3_n.Harness.{Wait, Harness, memory}
use project_and_training_3_n.Harness.Receive.{
  size_of, type_of, is_complete, remove_message, fill, Receiver, running, body_size, attempt,
  skip_texts, expect_silence,
}

module _ (h : Harness) (long : header_size ≤ length h.child_buf) (empty : size_of h ≡ 0) where
  whole : is_complete h ≡ true
  unfolding is_complete
  whole = ground (arith, empty)

  -- Moving all that stands behind 0 bytes changes nothing.
  unmoved : remove_message h ≡ h
  unfolding remove_message
  unmoved = rw empty (
      ap (λ b. record { child_buf = h.child_buf; behind = b; pipe = h.pipe })
        (drop_append h.child_buf h.behind (length h.child_buf) refl))

  fill-whole : (ws : List Wait) → fill ws h ≡ (true, h, ws)
  unfolding fill
  fill-whole [] = rw (fill, whole) refl
  fill-whole (w ∷ ws) = rw (fill, whole) refl

  attempt-endless :
      {C : Type 0} (recv : Receiver C) (fuel n : ℕ) (cls : C) (ws : List Wait)
      → type_of h ≡ 0
      → recv cls 0 (drop header_size (memory h)) (body_size 0) ≡ ok (2, cls)
      → attempt recv fuel (suc n) cls h ws ≡ running
  unfolding attempt
  attempt-endless recv zero n cls ws text answer = refl
  attempt-endless recv (suc fuel) n cls ws text answer =
      let filled = fill-whole ws in
      rw
        (
          ap (λ p. p.0) filled,
          ap (λ p. p.1) filled,
          attempt,
          text,
          empty,
          answer,
          ap (λ p. p.1) filled,
          ap (λ p. p.2) filled,
          unmoved,
        )
        (attempt-endless recv fuel n cls ws text answer)

  skip_texts-endless : (fuel : ℕ) → type_of h ≡ 0 → skip_texts fuel h ≡ none
  unfolding skip_texts
  skip_texts-endless zero text = refl
  skip_texts-endless (suc fuel) text =
      rw (skip_texts, whole, text, unmoved) (skip_texts-endless fuel text)

  -- Once a text of size 0 stands in the buffer, neither loop ends, however many rounds it is given:
  -- with a receiver that answers 2 to it and leaves its closure alone, as all do with a text,
  -- `trecv` still runs, however few messages it may skip; and so does `expect_silence`, in its first
  -- loop over texts.
  pub attempt-running :
      {C : Type 0} (recv : Receiver C) (fuel n : ℕ) (cls : C) (ws : List Wait)
      → type_of h ≡ 0
      → recv cls 0 (drop header_size (memory h)) (body_size 0) ≡ ok (2, cls)
      → (attempt recv fuel (suc n) cls h ws ≡ running) × (expect_silence fuel h ws ≡ none)
  unfolding expect_silence
  attempt-running recv fuel n cls ws text answer = (
    attempt-endless recv fuel n cls ws text answer,
    rw (expect_silence, skip_texts-endless fuel text) refl,
  )

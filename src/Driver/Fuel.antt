-- ===== src/Driver/Fuel.antt =====
-- The jumps to `rbuf_again`: when they end, and that they leave no message behind that could be
-- handled.
use project_and_training_3_n.Base.{
  zero, suc, inl, inr, ◌&&◌, Bytes, ◌≤◌, ◌<◌, ℕ, ◌-◌, ◌≡◌, ◌≢◌, ◌⊎◌, sym, ◌∙◌, none, some, ◌++◌,
  ntohs, ◌==◌, ltb, ltb→lt, length, take, drop, Option-cases,
}
use project_and_training_3_n.Wire.{header_size}
use project_and_training_3_n.Router.Command.{c_string}
use project_and_training_3_n.Driver.{Driver, Ready, next}
use project_and_training_3_n.Driver.After.{
  After, next-After, returned-After, running-After, unbounded-After, anything-After, bind-After,
  if-After_cases, if-After,
}
use project_and_training_3_n.Driver.Parts.{round-last}
use project_and_training_3_n.Driver.Round.{
  start_write, handle_bufin, read_tuns, read_network, wants_frames, round,
}

-- The driver without the text at the front.
abbrev behind_text : Driver → Driver
behind_text d = record d {
  bufin = drop (ntohs d.bufin) d.bufin;
  printed = d.printed ++ c_string (take (ntohs d.bufin - header_size) (drop header_size d.bufin));
}

-- If no frame is being sent, then the buffer has no complete message at its front.
abbrev pub Settled : Driver → Type 0
Settled d =
    (d.current_write ≢ none) ⊎ ((length d.bufin < header_size) ⊎ (length d.bufin < ntohs d.bufin))

settles : (f : ℕ) (d : Driver) → After Settled (handle_bufin f d)
unfolding handle_bufin start_write
settles zero d = running-After Settled
settles (suc f) d = elim (Option-cases d.current_write) [
  | inr (w, busy) ↦
      rw (busy, handle_bufin)
        (next-After Settled d
          (inl (λ e. absurd (let never : none ≡ some w = sym e ∙ busy in cc never))))
  | inl free ↦
      let s = ntohs d.bufin in
      rw (free, handle_bufin)
        (if-After_cases Settled (ltb (length d.bufin) header_size)
          (λ few. next-After Settled d (inr (inl (ltb→lt (length d.bufin) header_size few))))
          (λ _.
            if-After_cases Settled (ltb (length d.bufin) s)
              (λ part. next-After Settled d (inr (inr (ltb→lt (length d.bufin) s part))))
              (λ _.
                if-After Settled (ntohs (drop 2 d.bufin) == 0)
                  (if-After Settled (ltb 0 s && ltb s header_size) (unbounded-After Settled)
                    (settles f (behind_text d)))
                  (if-After Settled (ltb (length d.gifc) (ntohs (drop 2 d.bufin)))
                    (returned-After Settled) (next-After Settled _ (inl (λ e. absurd (cc e))))))))
]

-- After a round that goes on: if no frame is being sent, then the child's next message is not
-- complete in `bufin`.
pub round-Settled : (e : Ready) (d d' : Driver) → round e d ≡ next d' → Settled d'
unfolding read_network
round-Settled e d d' same =
    (round-last Settled e d (λ d4.
        bind-After Settled Settled _ (read_network (wants_frames d.gifc e.tun_in))
          (settles (suc (length d4.bufin)) d4)
          (λ d5 s.
            bind-After (λ _. Unit) Settled _ _
              (anything-After (read_tuns 0 (wants_frames d.gifc e.tun_in) d5.gifc d5.current_read))
              (λ a _. next-After Settled _ s)))).holds
      d' same

-- The texts at the front of the buffer come to one of size 0.
pub data Endless : Bytes → Type 0 where
  here : {b : Bytes} → header_size ≤ length b → ntohs b ≡ 0 → ntohs (drop 2 b) ≡ 0 → Endless b
  behind :
      {b : Bytes}
      → header_size ≤ ntohs b
      → ntohs b ≤ length b
      → ntohs (drop 2 b) ≡ 0
      → Endless (drop (ntohs b) b)
      → Endless b

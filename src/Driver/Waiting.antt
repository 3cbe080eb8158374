-- ===== src/Driver/Waiting.antt =====
-- The messages for the child: those that wait in the buffers, and the job.
use project_and_training_3_n.Base.{
  ℕ, zero, suc, ◌+◌, ◌≡◌, ◌⊎◌, inl, inr, refl, ◌∙◌, subst, Option, none, some, List, [], ◌∷◌, ◌++◌,
  Bytes, set,
}
use project_and_training_3_n.Wire.Delivery.{Message, encode}
use project_and_training_3_n.Libc.Tokens.{Lacks}
use project_and_training_3_n.Driver.{interface, Reading, Received, failed, elsewhere, frame}
use project_and_training_3_n.Driver.After.{After, next-After, returned-After, bind-After}
use project_and_training_3_n.Driver.Round.{
  wants_frames, frame_message, receive_frame, queue_frame, read_tuns, insert_tags, no_frames,
}

-- `Came i body` says that a frame with its tags came in on interface `i`.
module _ (Came : ℕ → Bytes → Type 0) where
  -- A line of the terminal with its newline, or a frame that came in on interface `i`.
  pub data IsJob (m : Message) : Type 0 where
    typed : (text : Bytes) → Lacks b'\n' text → m.type ≡ 0 → m.body ≡ text ++ b'\n' ∷ [] → IsJob m
    received : (i : ℕ) → m.type ≡ i + 1 → Came i m.body → IsJob m

  -- The buffer of interface `i` is empty, or it holds the message of a frame that came in.
  abbrev pub IsWaiting : ℕ → Bytes → Type 0
  IsWaiting i b =
      (b ≡ [])
      ⊎ ((body : Bytes) × Came i body × (b ≡ encode (record { type = i + 1; body = body })))

  abbrev pub AllWaiting : ℕ → List Bytes → Type 0
  AllWaiting i [] = Unit
  AllWaiting i (b ∷ gifc) = IsWaiting i b × AllWaiting (i + 1) gifc

  pub AllWaiting-set :
      (gifc : List Bytes) (k i : ℕ) → AllWaiting k gifc → AllWaiting k (set gifc i [])
  AllWaiting-set [] k i v = v
  AllWaiting-set (x ∷ gifc) k zero v = (inl refl, v.1)
  AllWaiting-set (x ∷ gifc) k (suc i) v = (v.0, AllWaiting-set gifc (k + 1) i v.1)

  -- The job after a look at the buffers: the same, or a new one.
  pub data Queued (job job' : Option Reading) : Type 0 where
    kept : job' ≡ job → Queued job job'
    began :
        (r : Reading) (m : Message)
        → job ≡ none
        → job' ≡ some r
        → r.rest ≡ encode m
        → IsJob m
        → (i : ℕ) → r.from ≡ interface i
        → m.type ≡ i + 1
        → Queued job job'

  pub Queued-trans : {a b c : Option Reading} → Queued a b → Queued b c → Queued a c
  Queued-trans {a} {b} {c} (kept e) q = subst (λ (t : Option Reading). Queued t c) e q
  Queued-trans (began r m idle e encoded j i from type) (kept same) =
      began r m idle (same ∙ e) encoded j i from type
  Queued-trans (began r m idle e encoded j i from type)
        (began r' m' idle' e' encoded' j' i' from' type') =
      absurd (cc (e, idle'))

  pub receive_frame-IsWaiting :
      (i : ℕ) (event : Option Received) (buftun : Bytes)
      → ((c : ℕ) (cs : Bytes) (tags : List (ℕ × ℕ))
          → event ≡ some (frame (c ∷ cs) tags)
          → Came i (insert_tags (c ∷ cs) tags))
      → IsWaiting i buftun
      → After (IsWaiting i) (receive_frame i event buftun)
  unfolding receive_frame frame_message
  receive_frame-IsWaiting i none buftun came w = next-After (IsWaiting i) buftun w
  receive_frame-IsWaiting i (some r) (b ∷ bs) came w = next-After (IsWaiting i) (b ∷ bs) w
  receive_frame-IsWaiting i (some failed) [] came w = returned-After (IsWaiting i)
  receive_frame-IsWaiting i (some elsewhere) [] came w = next-After (IsWaiting i) [] w
  receive_frame-IsWaiting i (some (frame [] tags)) [] came w = returned-After (IsWaiting i)
  receive_frame-IsWaiting i (some (frame (c ∷ cs) tags)) [] came w =
      next-After (IsWaiting i) _ (inr (insert_tags (c ∷ cs) tags, came c cs tags refl, refl))

  pub queue_frame-Queued :
      (i : ℕ) (buftun : Bytes) (job : Option Reading)
      → IsWaiting i buftun
      → Queued job (queue_frame i buftun job)
  unfolding queue_frame
  queue_frame-Queued i [] job w = kept refl
  queue_frame-Queued i (b ∷ bs) (some r) w = kept refl
  queue_frame-Queued i (b ∷ bs) none (inl e) = absurd (cc e)
  queue_frame-Queued i (b ∷ bs) none (inr (body, came, e)) =
      began _ (record { type = i + 1; body = body }) refl refl e (received i refl came) i refl refl

  -- All frames of `events`, from interface `i` on, came in.
  abbrev pub Heard : ℕ → List (Option Received) → Type 0
  Heard i [] = Unit
  Heard i (event ∷ events) =
      ((c : ℕ) (cs : Bytes) (tags : List (ℕ × ℕ))
        → event ≡ some (frame (c ∷ cs) tags)
        → Came i (insert_tags (c ∷ cs) tags))
      × Heard (i + 1) events

  abbrev pub Reads : ℕ → Option Reading → List Bytes × Option Reading → Type 0
  Reads i job after = AllWaiting i after.0 × Queued job after.1

  pub read_tuns-Reads :
      (i : ℕ) (events : List (Option Received)) (gifc : List Bytes) (job : Option Reading)
      → Heard i events
      → AllWaiting i gifc
      → After (Reads i job) (read_tuns i events gifc job)
  unfolding read_tuns
  read_tuns-Reads i events [] job came w = next-After (Reads i job) _ (w, kept refl)
  read_tuns-Reads i [] (buftun ∷ gifc) job came w =
      let first = queue_frame-Queued i buftun job w.0 in
      bind-After (Reads (i + 1) _) (Reads i job) _ _ (read_tuns-Reads (i + 1) [] gifc _ tt w.1)
        (λ a p. next-After (Reads i job) _ ((w.0, p.0), Queued-trans first p.1))
  read_tuns-Reads i (event ∷ events) (buftun ∷ gifc) job came w =
      bind-After (IsWaiting i) (Reads i job) _ _ (receive_frame-IsWaiting i event buftun came.0 w.0)
        (λ now v.
          let first = queue_frame-Queued i now job v in
          bind-After (Reads (i + 1) _) (Reads i job) _ _
            (read_tuns-Reads (i + 1) events gifc _ came.1 w.1)
            (λ a p. next-After (Reads i job) _ ((v, p.0), Queued-trans first p.1)))

  pub no_frames-AllWaiting : (macs : List Bytes) (i : ℕ) → AllWaiting i (no_frames macs)
  no_frames-AllWaiting [] i = tt
  no_frames-AllWaiting (mac ∷ macs) i = (inl refl, no_frames-AllWaiting macs (i + 1))

  -- What is asked for is a part of what the kernel has.
  pub wants_frames-Heard :
      (i : ℕ) (gifc : List Bytes) (events : List (Option Received))
      → Heard i events
      → Heard i (wants_frames gifc events)
  wants_frames-Heard i [] events came = tt
  wants_frames-Heard i (b ∷ gifc) [] came = tt
  wants_frames-Heard i ([] ∷ gifc) (event ∷ events) came =
      (came.0, wants_frames-Heard (i + 1) gifc events came.1)
  wants_frames-Heard i ((b ∷ bs) ∷ gifc) (event ∷ events) came =
      ((λ c cs tags e. absurd (cc e)), wants_frames-Heard (i + 1) gifc events came.1)

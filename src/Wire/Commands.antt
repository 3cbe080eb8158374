-- ===== src/Wire/Commands.antt =====
-- Programs whose callback for a command leaves its message if the command is empty.
use mathlib.Core.List.{flatten}
use project_and_training_3_n.Base.{
  ℕ, zero, suc, ◌+◌, ◌/◌, ◌<◌, ◌≡◌, ◌≢◌, ◌⊎◌, inl, inr, refl, sym, ◌∙◌, Bool, true, false, ◌&&◌,
  ◌||◌, List, [], ◌∷◌, Bytes, ntohs, ◌==◌, leb, ltb, if◌then◌else◌, Bool-cases, length, take, drop,
  length-take, length-drop, Result, ok, err, Fault, aborted, out_of_bounds, All, arith, ◌-◌,
  List-cases,
}
use project_and_training_3_n.Wire.{header_size, mac_addr_size, MacAddress}
use project_and_training_3_n.Wire.Stream.{Complete, guards, waits, bad, full, loop-flatten}
use project_and_training_3_n.Wire.Safety.{Ends, bind-Ends}
use project_and_training_3_n.Wire.Loop.{
  Handlers, LoopState, deliver_macs, dispatch, consume, drain, receive, loop,
}

-- The message at the front of the stream is a command with no byte; `seen` says that the addresses
-- came before.
abbrev is_empty_command : Bool → Bytes → Bool
is_empty_command seen bytes = ntohs (drop 2 bytes) == 0 && (seen && ntohs bytes == header_size)

-- One of the first messages that the stream holds whole, at most as many as the first argument says,
-- is such a command.
unfoldable pub empty_command : ℕ → Bool → Bytes → Bool
empty_command zero seen bytes = false
empty_command (suc n) seen bytes =
    let size = ntohs bytes in
    let later = empty_command n (seen || ntohs (drop 2 bytes) == 0) (drop size bytes) in
    if leb (length bytes) header_size
    then false
    else if ltb (length bytes) size
    then false
    else if ltb size header_size
    then false
    else is_empty_command seen bytes || later

-- The callbacks keep `P` or abort, but for an empty command, of which nothing is known.
pub record Serves {S : Type 0} (h : Handlers S) (P : S → Type 0) : Type 0 where
  pub frame :
      (n : ℕ) (body : Bytes) (s : S) → n ≢ 0 → P s → Ends (λ x. x ≡ aborted) P (h.frame n body s)
  pub control :
      (c : ℕ) (cmd : Bytes) (s : S) → P s → Ends (λ x. x ≡ aborted) P (h.control (c ∷ cmd) s)
  pub empty : (s : S) → h.control [] s ≡ err out_of_bounds
  pub mac :
      (n : ℕ) (addr : MacAddress) (s : S) → n ≢ 0 → P s → Ends (λ x. x ≡ aborted) P (h.mac n addr s)

-- It aborted; or it left a message, and `empty` says that there was an empty command.
abbrev pub Unless : Bool → Fault → Type 0
Unless empty x = (x ≡ aborted) ⊎ ((x ≡ out_of_bounds) × (empty ≡ true))

Ends-map :
    {A : Type 0} {F G : Fault → Type 0} {P Q : A → Type 0} (m : Result A)
    → ((x : Fault) → F x → G x)
    → ((a : A) → P a → Q a)
    → Ends F P m
    → Ends G Q m
Ends-map (ok a) f g e = g a e
Ends-map (err x) f g e = f x e

Unless-or : (b c : Bool) (x : Fault) → Unless b x → Unless (b || c) x
Unless-or b c x (inl e) = inl e
Unless-or b c x (inr (e, t)) = inr (e, rw t refl)

or-Unless : (b c : Bool) (x : Fault) → Unless c x → Unless (b || c) x
or-Unless b c x (inl e) = inl e
or-Unless true c x (inr (e, t)) = inr (e, refl)
or-Unless false c x (inr (e, t)) = inr (e, t)

module _ {S : Type 0} (h : Handlers S) (P : S → Type 0) (k : Serves h P) where
  deliver_macs-Aborts :
      (n i : ℕ) (body : Bytes) (s : S) → P s → Ends (λ x. x ≡ aborted) P (deliver_macs h n i body s)
  unfolding deliver_macs
  deliver_macs-Aborts zero i body s p = p
  deliver_macs-Aborts (suc n) i body s p =
      bind-Ends (λ x. x ≡ aborted) P P (h.mac (i + 1) (take mac_addr_size body) s) _
        (k.mac (i + 1) _ s (omega arith) p)
        (λ s' p'. deliver_macs-Aborts n (i + 1) (drop mac_addr_size body) s' p')

  -- The result of a callback, with `have_mac`.
  Dispatched : ℕ → Bool → Bool × S → Type 0
  Dispatched type seen r = P r.1 × (r.0 ≡ (seen || type == 0))

  dispatch-Unless :
      (type : ℕ) (body : Bytes) (seen : Bool) (s : S)
      → P s
      → Ends
          (Unless (type == 0 && (seen && length body == 0)))
          (Dispatched type seen)
          (dispatch h type body seen s)
  unfolding dispatch Dispatched
  dispatch-Unless type body seen s p = elim (Bool-cases (type == 0)) [
    | inl control ↦ elim (Bool-cases seen) [
      | inl later ↦ elim (List-cases body) [
        | inl nothing ↦ rw (control, later, nothing, k.empty s) (inr (refl, refl))
        | inr (c, cmd, more) ↦
            rw (control, later, more)
              (bind-Ends _ P _ (h.control (c ∷ cmd) s) _
                (Ends-map (h.control (c ∷ cmd) s) (λ _. inl) (λ _ q. q) (k.control c cmd s p))
                (λ s' p'. (p', refl)))
      ]
      | inr first ↦
          rw (control, first)
            (bind-Ends _ P _ (deliver_macs h (length body / mac_addr_size) 0 body s) _
              (Ends-map (deliver_macs h (length body / mac_addr_size) 0 body s) (λ _. inl)
                (λ _ q. q) (deliver_macs-Aborts (length body / mac_addr_size) 0 body s p))
              (λ s' p'. (p', sym control)))
    ]
    | inr frame ↦ rw frame (
        bind-Ends _ P _ (h.frame type body s) _
          (Ends-map (h.frame type body s) (λ _. inl) (λ _ q. q)
            (k.frame type body s (ground arith) p))
          (λ s' p'. (p', ground arith)))
  ]

  abbrev Holds : LoopState S → Type 0
  Holds st = P st.app

  -- What taking the message at the front leaves.
  Followed : LoopState S → LoopState S → Type 0
  Followed st st' =
      Holds st'
      × (st'.have_mac ≡ (st.have_mac || ntohs (drop 2 st.buf) == 0))
      × (st'.buf ≡ drop (ntohs st.buf) st.buf)

  length-body :
      (st : LoopState S)
      → Complete h st
      → length (take (ntohs st.buf - header_size) (drop header_size st.buf))
        ≡ ntohs st.buf - header_size
  length-body st c =
      length-take (ntohs st.buf - header_size) (drop header_size st.buf)
      ∙ omega (arith, c.long, c.here, length-drop header_size st.buf)

  no_body :
      (st : LoopState S)
      → Complete h st
      → (length (take (ntohs st.buf - header_size) (drop header_size st.buf)) == 0)
        ≡ (ntohs st.buf == header_size)
  no_body st c = rw (length-body st c) (ground (arith, c.sized))

  consume-Unless :
      (st : LoopState S)
      → Complete h st
      → Holds st
      → Ends (Unless (is_empty_command st.have_mac st.buf)) (Followed st) (consume h st)
  unfolding consume Dispatched Followed
  consume-Unless st c p =
      bind-Ends _ (Dispatched (ntohs (drop 2 st.buf)) st.have_mac) (Followed st)
        (dispatch h _ _ st.have_mac st.app) _
        (rw (no_body st c) at (
          dispatch-Unless (ntohs (drop 2 st.buf))
            (take (ntohs st.buf - header_size) (drop header_size st.buf)) st.have_mac st.app p))
        (λ r q. (q.0, q.1, refl))

  empty_command-Complete :
      (f : ℕ) (st : LoopState S)
      → Complete h st
      → empty_command (suc f) st.have_mac st.buf ≡ (
          is_empty_command st.have_mac st.buf
          || empty_command f
              (st.have_mac || ntohs (drop 2 st.buf) == 0)
              (drop (ntohs st.buf) st.buf))
  unfolding empty_command
  empty_command-Complete f st c = ground arith

  pub drain-Unless :
      (f : ℕ) (st : LoopState S)
      → Holds st
      → Ends (Unless (empty_command f st.have_mac st.buf)) Holds (drain h f st)
  unfolding Followed
  drain-Unless zero st p = unfold drain in p
  drain-Unless (suc f) st p = elim (guards h st) [
    | waits _ w ↦ rw (w (suc f)) p
    | bad _ _ _ b ↦ rw (b f) (inl refl)
    | full c e ↦ rw (e f) (
        bind-Ends _ (Followed st) Holds (consume h st) (drain h f)
          (rw (empty_command-Complete f st c) (
            Ends-map (consume h st) (Unless-or (is_empty_command st.have_mac st.buf) _) (λ _ q. q)
              (consume-Unless st c p)))
          (λ st' q.
            rw (empty_command-Complete f st c, ← q.1, ← q.2)
              (Ends-map (drain h f st') (or-Unless (is_empty_command st.have_mac st.buf) _)
                (λ _ p'. p') (drain-Unless f st' q.0))))
  ]

  -- A program with such callbacks, over reads of a byte or more, keeps `P` or aborts, or leaves a
  -- message if one of those that it read is an empty command behind the addresses.
  pub loop-Unless :
      (chunks : List Bytes) (s : S)
      → All (λ c. 0 < length c) chunks
      → P s
      → Ends
          (Unless (empty_command (length (flatten chunks)) false (flatten chunks)))
          Holds
          (loop h chunks s)
  unfolding receive
  loop-Unless chunks s live p = rw (loop-flatten h chunks s live) (
      drain-Unless (length (flatten chunks))
        (record { buf = flatten chunks; have_mac = false; app = s }) p)

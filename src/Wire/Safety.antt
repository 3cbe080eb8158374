-- ===== src/Wire/Safety.antt =====
-- What holds of a program that runs in the main loop, whatever it reads.
use project_and_training_3_n.Base.{
  ℕ, zero, suc, ◌+◌, ◌/◌, ◌≡◌, ◌≢◌, inl, inr, Bool, List, [], ◌∷◌, ◌++◌, Bytes, ◌==◌, Bool-cases,
  length, take, drop, Result, ok, err, Fault, aborted, ◌>>=◌, arith,
}
use project_and_training_3_n.Wire.{mac_addr_size, MacAddress}
use project_and_training_3_n.Wire.Stream.{guards, waits, bad, full}
use project_and_training_3_n.Wire.Loop.{
  Handlers, LoopState, deliver_macs, dispatch, consume, drain, receive, run, loop,
}

-- The call returned with a value that satisfies `P`, or it failed with a fault that `F` allows.
abbrev pub Ends {ℓ} : {A : Type ℓ} → (Fault → Type 0) → (A → Type 0) → Result A → Type 0
Ends F P (ok a) = P a
Ends F P (err x) = F x

-- The call returned with a value that satisfies `P`, or the program aborted.
abbrev pub Safe {ℓ} : {A : Type ℓ} → (A → Type 0) → Result A → Type 0
Safe P call = Ends (λ x. x ≡ aborted) P call

pub bind-Ends :
    {A B : Type 0} (F : Fault → Type 0) (P : A → Type 0) (Q : B → Type 0) (m : Result A)
    (f : A → Result B)
    → Ends F P m
    → ((a : A) → P a → Ends F Q (f a))
    → Ends F Q (m >>= f)
bind-Ends F P Q (ok a) f s k = k a s
bind-Ends F P Q (err x) f s k = s

-- The callbacks keep `P`, and fail only as `F` allows. The loop passes no interface number 0.
pub record Keeps {S : Type 0} (h : Handlers S) (F : Fault → Type 0) (P : S → Type 0) : Type 0 where
  pub frame : (n : ℕ) (body : Bytes) (s : S) → n ≢ 0 → P s → Ends F P (h.frame n body s)
  pub control : (body : Bytes) (s : S) → P s → Ends F P (h.control body s)
  pub mac : (n : ℕ) (addr : MacAddress) (s : S) → n ≢ 0 → P s → Ends F P (h.mac n addr s)

module _ {S : Type 0} (h : Handlers S) (F : Fault → Type 0) (P : S → Type 0) (abort : F aborted)
    (k : Keeps h F P) where
  deliver_macs-Ends : (n i : ℕ) (body : Bytes) (s : S) → P s → Ends F P (deliver_macs h n i body s)
  unfolding deliver_macs
  deliver_macs-Ends zero i body s p = p
  deliver_macs-Ends (suc n) i body s p =
      bind-Ends F P P (h.mac (i + 1) (take mac_addr_size body) s) _
        (k.mac (i + 1) _ s (omega arith) p)
        (λ s' p'. deliver_macs-Ends n (i + 1) (drop mac_addr_size body) s' p')

  dispatch-Ends :
      (type : ℕ) (body : Bytes) (seen : Bool) (s : S)
      → P s
      → Ends F (λ r. P r.1) (dispatch h type body seen s)
  unfolding dispatch
  dispatch-Ends type body seen s p = elim (Bool-cases (type == 0)) [
    | inl control ↦ elim (Bool-cases seen) [
      | inl later ↦
          rw (control, later)
            (bind-Ends F P _ (h.control body s) _ (k.control body s p) (λ s' p'. p'))
      | inr first ↦
          rw (control, first)
            (bind-Ends F P _ (deliver_macs h (length body / mac_addr_size) 0 body s) _
              (deliver_macs-Ends (length body / mac_addr_size) 0 body s p) (λ s' p'. p'))
    ]
    | inr frame ↦ rw frame (
        bind-Ends F P _ (h.frame type body s) _ (k.frame type body s (ground arith) p)
          (λ s' p'. p'))
  ]

  abbrev Holds : LoopState S → Type 0
  Holds st = P st.app

  consume-Ends : (st : LoopState S) → P st.app → Ends F Holds (consume h st)
  unfolding consume
  consume-Ends st p =
      bind-Ends F (λ r. P r.1) Holds (dispatch h _ _ st.have_mac st.app) _
        (dispatch-Ends _ _ st.have_mac st.app p) (λ r q. q)

  drain-Ends : (f : ℕ) (st : LoopState S) → P st.app → Ends F Holds (drain h f st)
  drain-Ends zero st p = unfold drain in p
  drain-Ends (suc f) st p = elim (guards h st) [
    | waits _ w ↦ rw (w (suc f)) p
    | bad _ _ _ b ↦ rw (b f) abort
    | full c e ↦ rw (e f) (
        bind-Ends F Holds Holds (consume h st) (drain h f) (consume-Ends st p)
          (λ st' p'. drain-Ends f st' p'))
  ]

  run-Ends : (chunks : List Bytes) (st : LoopState S) → P st.app → Ends F Holds (run h chunks st)
  unfolding run receive
  run-Ends [] st p = p
  run-Ends ([] ∷ chunks) st p = p
  run-Ends ((b ∷ bs) ∷ chunks) st p =
      bind-Ends F Holds Holds (receive h st (b ∷ bs)) (run h chunks)
        (drain-Ends (length (st.buf ++ b ∷ bs)) _ p) (λ st' p'. run-Ends chunks st' p')

  -- If the callbacks keep a property of the program's state, so does the main loop, whatever bytes
  -- it reads and however the reads cut them; it fails as the callbacks may, or aborts.
  pub loop-Ends : (chunks : List Bytes) (s : S) → P s → Ends F (λ st. P st.app) (loop h chunks s)
  unfolding loop
  loop-Ends chunks s p = run-Ends chunks _ p

-- ===== src/Harness/Stream.antt =====
-- A message that the stream holds arrives whole in `child_buf`, and leaves it whole.
use project_and_training_3_n.Base.{
  ℕ, zero, suc, ◌+◌, ◌^◌, ◌≤◌, ◌<◌, ◌≡◌, min, inl, inr, refl, sym, ap, ◌∙◌, Bool, true, false, List,
  [], ◌∷◌, ◌++◌, Bytes, ntohs, leb, leb→le, ◌&&◌, Bool-cases, List-cases, length, take, drop,
  length-append, length-take, length-drop, append_assoc, subst, All, arith,
}
use project_and_training_3_n.Wire.{header_size}
use project_and_training_3_n.Wire.Delivery.{Message, encode, encode_all}
use project_and_training_3_n.Harness.{Wait, timeout, failed, readable, Harness, child_buf_size}
use project_and_training_3_n.Harness.Receive.{size_of, is_complete, read_bytes, append_read, fill}

-- The type and the size fit their fields.
abbrev pub IsSized : Message → Type 0
IsSized m = (m.type < 2 ^ 16) × (length m.body + header_size < 2 ^ 16)

-- A `read` that can get a byte or more.
abbrev pub IsLive : Wait → Type 0
IsLive timeout = ⊥
IsLive failed = ⊥
IsLive (readable n) = 0 < n

-- The buffer and the pipe hold the messages, and the array has its size.
pub record Holds (h : Harness) (ms : List Message) : Type 0 where
  pub stream : h.child_buf ++ h.pipe ≡ encode_all ms
  pub room : length h.child_buf + length h.behind ≡ child_buf_size

-- The buffer and the pipe hold the messages, and the child stays readable for long enough.
pub record Ready (h : Harness) (ws : List Wait) (ms : List Message) : Type 0 where
  pub stream : h.child_buf ++ h.pipe ≡ encode_all ms
  pub room : length h.child_buf + length h.behind ≡ child_buf_size
  pub live : All IsLive ws
  pub enough : length h.pipe ≤ length ws

ntohs_same : (xs ys zs : Bytes) → 2 ≤ length xs → ntohs (xs ++ ys) ≡ ntohs (xs ++ zs)
ntohs_same [] ys zs h = absurd (omega arith)
ntohs_same (a ∷ []) ys zs h = absurd (omega arith)
ntohs_same (a ∷ b ∷ xs) ys zs h = refl

pub length-encode : (m : Message) → length (encode m) ≡ header_size + length m.body
length-encode m = omega arith

-- The first bytes of the stream are the first message's header.
size_of_lem :
    (h : Harness) (m : Message) (rest : Bytes)
    → IsSized m
    → 2 ≤ length h.child_buf
    → h.child_buf ++ h.pipe ≡ encode m ++ rest
    → size_of h ≡ header_size + length m.body
size_of_lem h m rest v long e =
    ntohs_same h.child_buf h.behind h.pipe long ∙ ap ntohs e ∙ omega arith

leb→gt : (a b : ℕ) → leb a b ≡ false → b < a
leb→gt a b e = ground arith

pub and-true : (a b : Bool) → (a && b) ≡ true → (a ≡ true) × (b ≡ true)
and-true a b e = ground arith

module _ (h : Harness) (m : Message) (rest : Bytes) (v : IsSized m)
    (e : h.child_buf ++ h.pipe ≡ encode m ++ rest) where
  -- A message that is not complete leaves room in the buffer, and is not all that there is.
  pub incomplete :
      length h.child_buf + length h.behind ≡ child_buf_size
      → is_complete h ≡ false
      → (0 < length h.behind) × (0 < length h.pipe)
  unfolding is_complete
  incomplete room c =
      let all : length h.child_buf + length h.pipe ≡ header_size + length m.body + length rest =
        sym (length-append h.child_buf h.pipe)
        ∙ ap length e
        ∙ length-append (encode m) rest
        ∙ omega arith in
      elim (Bool-cases (leb header_size (length h.child_buf))) [
        | inl long ↦
            let size = size_of_lem h m rest v (omega (arith, leb→le _ _ long)) e in
            let part : leb (size_of h) (length h.child_buf) ≡ false = rw long at c in
            omega (arith, leb→gt (size_of h) (length h.child_buf) part)
        | inr short ↦ omega (arith, leb→gt header_size (length h.child_buf) short)
      ]

  pub complete_long : is_complete h ≡ true → header_size + length m.body ≤ length h.child_buf
  unfolding is_complete
  complete_long c =
      let (long, all) = and-true (leb header_size (length h.child_buf)) _ c in
      let size = size_of_lem h m rest v (omega (arith, leb→le _ _ long)) e in
      omega (arith, leb→le _ _ all)

pub take-rest : (k : ℕ) (xs : Bytes) → take k xs ++ drop (length (take k xs)) xs ≡ xs
take-rest zero xs = refl
take-rest (suc k) [] = refl
take-rest (suc k) (x ∷ xs) = ap (◌∷◌ x) (take-rest k xs)

-- A read moves bytes from the pipe to the buffer.
append_read-Ready :
    (h : Harness) (n : ℕ) (ws : List Wait) (ms : List Message)
    → 0 < length (read_bytes n h)
    → Ready h (readable n ∷ ws) ms
    → Ready (append_read (read_bytes n h) h) ws ms
append_read-Ready h n ws ms some_read r =
    let got = read_bytes n h in
    let few : length got ≡ min (min n (length h.behind)) (length h.pipe) =
      length-take (min n (length h.behind)) h.pipe in
    record {
      stream =
          append_assoc h.child_buf got (drop (length got) h.pipe)
          ∙ ap (◌++◌ h.child_buf) (take-rest (min n (length h.behind)) h.pipe)
          ∙ r.stream;
      room =
          omega
            (arith, r.room, few, length-append h.child_buf got, length-drop (length got) h.behind);
      live = r.live.1;
      enough = omega (arith, r.enough, length-drop (length got) h.pipe);
    }

-- The inner loop ends with the first message that is left, whole.
pub fill-Ready :
    (ws : List Wait) (h : Harness) (m : Message) (ms : List Message)
    → IsSized m
    → Ready h ws (m ∷ ms)
    → (r : Harness × List Wait) × (fill ws h ≡ (true, r.0, r.1))
      × Ready r.0 r.1 (m ∷ ms)
      × (is_complete r.0 ≡ true)
unfolding fill
fill-Ready [] h m ms v r = elim (Bool-cases (is_complete h)) [
  | inl c ↦ ((h, []), rw c refl, r, c)
  | inr c ↦ absurd (omega (arith, incomplete h m (encode_all ms) v r.stream r.room c, r.enough))
]
fill-Ready (timeout ∷ ws) h m ms v r = absurd r.live.0
fill-Ready (failed ∷ ws) h m ms v r = absurd r.live.0
fill-Ready (readable n ∷ ws) h m ms v r = elim (Bool-cases (is_complete h)) [
  | inl c ↦ ((h, readable n ∷ ws), rw (c, fill) refl, r, c)
  | inr c ↦
      let (room, more) = incomplete h m (encode_all ms) v r.stream r.room c in
      let few = length-take (min n (length h.behind)) h.pipe in
      elim (List-cases (read_bytes n h)) [
        | inl none ↦ absurd (
            let no : length (read_bytes n h) ≡ 0 = rw none refl in omega (arith, few, no, r.live.0))
        | inr (b, bs, got) ↦
            let ready : Ready (append_read (b ∷ bs) h) ws (m ∷ ms) =
              subst (λ g. Ready (append_read g h) ws (m ∷ ms)) got
                (append_read-Ready h n ws (m ∷ ms) (rw got (omega arith)) r) in
            let (r', same, ready', whole) = fill-Ready ws (append_read (b ∷ bs) h) m ms v ready in
            (r', rw (c, fill, got) same, ready', whole)
      ]
]

pub Ready-Holds : {h : Harness} {ws : List Wait} {ms : List Message} → Ready h ws ms → Holds h ms
Ready-Holds r = record { stream = r.stream; room = r.room }

pub nothing_left : (h : Harness) → Holds h [] → (length h.child_buf ≡ 0) × (length h.pipe ≡ 0)
nothing_left h r =
    let all : length h.child_buf + length h.pipe ≡ 0 =
      sym (length-append h.child_buf h.pipe) ∙ ap length r.stream in
    omega arith

-- With no message left, the inner loop gives up, and takes nothing away.
pub fill-nil :
    (ws : List Wait) (h : Harness)
    → Ready h ws []
    → (ws' : List Wait) × (fill ws h ≡ (false, h, ws')) × Ready h ws' []
unfolding fill is_complete
fill-nil [] h r = let (none, _) = nothing_left h (Ready-Holds r) in ([], rw none refl, r)
fill-nil (timeout ∷ ws) h r = absurd r.live.0
fill-nil (failed ∷ ws) h r = absurd r.live.0
fill-nil (readable n ∷ ws) h r =
    let (none, empty) = nothing_left h (Ready-Holds r) in
    elim (List-cases (read_bytes n h)) [
      | inl got ↦ (
        ws,
        rw (none, fill, got) refl,
        record { stream = r.stream; room = r.room; live = r.live.1; enough = omega arith },
      )
      | inr (b, bs, got) ↦ absurd (
          let few = length-take (min n (length h.behind)) h.pipe in
          let long : 0 < length (read_bytes n h) = rw got (omega arith) in omega arith)
    ]

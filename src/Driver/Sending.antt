-- ===== src/Driver/Sending.antt =====
-- The frame that network-driver.c is sending, at the front of `bufin`.
use project_and_training_3_n.Base.{
  ℕ, zero, suc, ◌+◌, ◌-◌, ◌≡◌, refl, sym, ap, ◌∙◌, drop-drop, subst, false, Option, none, some,
  List, [], ◌∷◌, ◌++◌, Bytes, ntohs, ◌==◌, length, length-append, take, drop, take-append-drop,
  take_append, drop_append, append_assoc, append-nil, arith,
}
use project_and_training_3_n.Driver.{Writing}
use project_and_training_3_n.Driver.Parcels.{
  Parcel, raw, IsWhole, bytes_to, bytes_to-append, text_of, frame_bytes,
}

-- A frame that is being sent: `gone` of its bytes are sent, `todo` are not.
pub record Sending (w : Writing) (bufin : Bytes) (part : List (ℕ × ℕ)) : Type 0 where
  pub head : Bytes
  pub gone : Bytes
  pub todo : Bytes
  pub rest : Bytes
  pub split : bufin ≡ head ++ (gone ++ (todo ++ rest))
  pub whole : IsWhole (record { head = head; body = gone ++ todo })
  pub goal : ntohs (drop 2 head) ≡ w.to + 1
  pub off : length (head ++ gone) ≡ w.off
  pub left : length todo ≡ w.left
  pub sent : part ≡ bytes_to w.to gone

-- `part` are the bytes that are sent of the frame at the front of `bufin`. With a message of a
-- size below that of its header, nothing is left to send.
pub data Position (bufin : Bytes) (part : List (ℕ × ℕ)) : Option Writing → Type 0 where
  still : part ≡ [] → Position bufin part none
  stuck : {w : Writing} → w.left ≡ 0 → part ≡ [] → Position bufin part (some w)
  sending : {w : Writing} → Sending w bufin part → Position bufin part (some w)

pub Position-append :
    (bufin more : Bytes) (part : List (ℕ × ℕ)) (job : Option Writing)
    → Position bufin part job
    → Position (bufin ++ more) part job
Position-append bufin more part none (still e) = still e
Position-append bufin more part (some w) (stuck e f) = stuck e f
Position-append bufin more part (some w) (sending s) = sending (record {
  head = s.head;
  gone = s.gone;
  todo = s.todo;
  rest = s.rest ++ more;
  split =
      ap (λ (t : Bytes). t ++ more) s.split
      ∙ (append_assoc s.head (s.gone ++ (s.todo ++ s.rest)) more
          ∙ ap (◌++◌ s.head) (
              append_assoc s.gone (s.todo ++ s.rest) more
              ∙ ap (◌++◌ s.gone) (append_assoc s.todo s.rest more)));
  whole = s.whole;
  goal = s.goal;
  off = s.off;
  left = s.left;
  sent = s.sent;
})

-- The buffer behind what is sent.
pub Sending-drop :
    {w : Writing} {bufin : Bytes} {part : List (ℕ × ℕ)} (s : Sending w bufin part)
    → drop w.off bufin ≡ s.todo ++ s.rest
Sending-drop {w} {bufin} s =
    ap (drop w.off) (s.split ∙ sym (append_assoc s.head s.gone (s.todo ++ s.rest)))
    ∙ drop_append (s.head ++ s.gone) (s.todo ++ s.rest) w.off s.off

-- What `sendto` is offered.
pub Sending-take :
    {w : Writing} {bufin : Bytes} {part : List (ℕ × ℕ)} (s : Sending w bufin part)
    → take w.left (drop w.off bufin) ≡ s.todo
Sending-take {w} s = ap (take w.left) (Sending-drop s) ∙ take_append s.todo s.rest w.left s.left

-- `sendto` took some bytes, not all.
pub Sending-more :
    {w : Writing} {bufin : Bytes} {part : List (ℕ × ℕ)} (s : Sending w bufin part) (n : ℕ)
    → let chunk = take n s.todo in
      Sending
        (record { to = w.to; off = w.off + length chunk; left = w.left - length chunk })
        bufin
        (part ++ bytes_to w.to chunk)
Sending-more {w} s n =
    let chunk = take n s.todo in
    let back = drop n s.todo in
    let joined : chunk ++ back ≡ s.todo = take-append-drop n s.todo in
    record {
      head = s.head;
      gone = s.gone ++ chunk;
      todo = back;
      rest = s.rest;
      split =
          s.split
          ∙ ap (◌++◌ s.head) (
              sym (
                append_assoc s.gone chunk (back ++ s.rest)
                ∙ ap (◌++◌ s.gone) (
                    sym (append_assoc chunk back s.rest)
                    ∙ ap (λ (t : Bytes). t ++ s.rest) joined)));
      whole =
          subst (λ (t : Bytes). IsWhole (record { head = s.head; body = t }))
            (ap (◌++◌ s.gone) (sym joined) ∙ sym (append_assoc s.gone chunk back)) s.whole;
      goal = s.goal;
      off = omega (
        arith,
        length-append s.gone chunk,
        length-append s.head s.gone,
        length-append s.head (s.gone ++ chunk),
        s.off,
      );
      left = omega (arith, length-append chunk back, ap length joined, s.left);
      sent =
          ap (λ (t : List (ℕ × ℕ)). t ++ bytes_to w.to chunk) s.sent
          ∙ sym (bytes_to-append w.to s.gone chunk);
    }

pub length-nil : (xs : Bytes) → length xs ≡ 0 → xs ≡ []
length-nil [] e = refl
length-nil (x ∷ xs) e = absurd (omega arith)

-- `sendto` took all that was left.
pub Sending-last :
    {w : Writing} {bufin : Bytes} {part : List (ℕ × ℕ)} (s : Sending w bufin part) (n : ℕ)
    → w.left - length (take n s.todo) ≡ 0
    → take n s.todo ≡ s.todo
Sending-last s n over =
    let chunk = take n s.todo in
    let back = drop n s.todo in
    let joined : chunk ++ back ≡ s.todo = take-append-drop n s.todo in
    let nothing : back ≡ [] =
      length-nil back (omega (arith, length-append chunk back, ap length joined, s.left)) in
    sym (append-nil chunk) ∙ (ap (◌++◌ chunk) (sym nothing) ∙ joined)

-- The message that is sent.
abbrev pub parcel_of :
    {w : Writing} {bufin : Bytes} {part : List (ℕ × ℕ)} → Sending w bufin part → Parcel
parcel_of s = record { head = s.head; body = s.gone ++ s.todo }

pub parcel-stream :
    {w : Writing} {bufin : Bytes} {part : List (ℕ × ℕ)} (s : Sending w bufin part)
    → bufin ≡ raw (parcel_of s) ++ s.rest
parcel-stream s =
    s.split
    ∙ sym (
        append_assoc s.head (s.gone ++ s.todo) s.rest
        ∙ ap (◌++◌ s.head) (append_assoc s.gone s.todo s.rest))

pub parcel-frame :
    {w : Writing} {bufin : Bytes} {part : List (ℕ × ℕ)} (s : Sending w bufin part)
    → (text_of (parcel_of s) ≡ []) × (frame_bytes (parcel_of s) ≡ part ++ bytes_to w.to s.todo)
parcel-frame {w} s =
    let goal : ntohs (drop 2 s.head) ≡ suc w.to = omega (arith, s.goal) in
    let frame : (suc w.to == 0) ≡ false = ground arith in
    let index : suc w.to - 1 ≡ w.to = omega arith in
    (
      rw (goal, frame) refl,
      rw (goal, frame)
          (ap (λ i. bytes_to i (s.gone ++ s.todo)) index
            ∙ (bytes_to-append w.to s.gone s.todo
                ∙ ap (λ (t : List (ℕ × ℕ)). t ++ bytes_to w.to s.todo) (sym s.sent))),
    )

pub take-nil : (n : ℕ) → take {A = ℕ} n [] ≡ []
take-nil zero = refl
take-nil (suc n) = refl

pub Sending-behind :
    {w : Writing} {bufin : Bytes} {part : List (ℕ × ℕ)} (s : Sending w bufin part)
    → drop (w.off + length s.todo) bufin ≡ s.rest
Sending-behind {w} {bufin} s =
    sym (drop-drop w.off (length s.todo) bufin)
    ∙ (ap (drop (length s.todo)) (Sending-drop s) ∙ drop_append s.todo s.rest (length s.todo) refl)

pub Position-none : (bufin : Bytes) (part : List (ℕ × ℕ)) → Position bufin part none → part ≡ []
Position-none bufin part (still e) = e

-- ===== src/Driver/Outgoing.antt =====
-- The messages of the child that are done, and the steps that add one.
use project_and_training_3_n.Base.{
  ℕ, ◌+◌, ◌-◌, ◌≤◌, ◌≡◌, inl, inr, refl, sym, ap, ◌∙◌, ==_iff, ltb→le, ltb→lt, subst, false, none,
  some, List, [], ◌∷◌, ◌++◌, Bytes, ntohs, ◌==◌, ltb, length, take, drop, append_assoc, append-nil,
  All, All-append, Bool-cases, arith,
}
use project_and_training_3_n.Wire.{header_size}
use project_and_training_3_n.Router.Command.{c_string}
use project_and_training_3_n.Driver.{Writing, Driver}
use project_and_training_3_n.Driver.After.{
  After, next-After, returned-After, if-After, if-After_cases,
}
use project_and_training_3_n.Driver.Parcels.{
  Parcel, raw, type_of, IsWhole, bytes_to, each, each-snoc, text_of, frame_bytes, front,
}
use project_and_training_3_n.Driver.Round.{write_frame, start_write}
use project_and_training_3_n.Driver.Sending.{
  Sending, Position, still, stuck, sending, Sending-take, Sending-more, Sending-last, parcel_of,
  parcel-stream, parcel-frame, Sending-behind, take-nil, Position-none,
}

abbrev pub sent_bytes : List (ℕ × Bytes) → List (ℕ × ℕ)
sent_bytes = each (λ s. bytes_to s.0 s.1)

-- The messages of `done` went out, and `part` of one more.
pub record Passed (d : Driver) : Type 0 where
  pub done : List Parcel
  pub part : List (ℕ × ℕ)
  pub whole : All IsWhole done
  pub stream : d.from_child ≡ each raw done ++ d.bufin
  pub texts : d.printed ≡ each text_of done
  pub frames : sent_bytes d.sent ≡ each frame_bytes done ++ part
  pub position : Position d.bufin part d.current_write

-- The driver differs in what `Passed` does not read.
pub same :
    (d d' : Driver)
    → d'.from_child ≡ d.from_child
    → d'.bufin ≡ d.bufin
    → d'.printed ≡ d.printed
    → d'.sent ≡ d.sent
    → d'.current_write ≡ d.current_write
    → Passed d
    → Passed d'
same d d' from bufin printed sent job p = record {
  done = p.done;
  part = p.part;
  whole = p.whole;
  stream = rw (from, bufin) p.stream;
  texts = rw printed p.texts;
  frames = rw sent p.frames;
  position = rw (bufin, job) p.position;
}

-- One more message is done.
each-raw-snoc :
    (done : List Parcel) (q : Parcel) (rest : Bytes)
    → each raw (done ++ q ∷ []) ++ rest ≡ each raw done ++ (raw q ++ rest)
each-raw-snoc done q rest =
    ap (λ (t : Bytes). t ++ rest) (each-snoc raw done q) ∙ append_assoc (each raw done) (raw q) rest

-- The message at the front is done.
pub done-Passed :
    (d d' : Driver) (p : Passed d) (q : Parcel) (text : Bytes) (bytes : List (ℕ × ℕ))
    → IsWhole q
    → d.bufin ≡ raw q ++ d'.bufin
    → d'.from_child ≡ d.from_child
    → d'.printed ≡ d.printed ++ text
    → text ≡ text_of q
    → sent_bytes d'.sent ≡ sent_bytes d.sent ++ bytes
    → p.part ++ bytes ≡ frame_bytes q
    → d'.current_write ≡ none
    → Passed d'
done-Passed d d' p q text bytes whole split from printed is_text sent is_frame over = record {
  done = p.done ++ q ∷ [];
  part = [];
  whole = All-append IsWhole p.done (q ∷ []) p.whole (whole, tt);
  stream =
      from
      ∙ (p.stream ∙ (ap (◌++◌ (each raw p.done)) split ∙ sym (each-raw-snoc p.done q d'.bufin)));
  texts =
      printed
      ∙ (ap (λ (t : Bytes). t ++ text) p.texts
          ∙ (ap (◌++◌ (each text_of p.done)) is_text ∙ sym (each-snoc text_of p.done q)));
  frames =
      sent
      ∙ (ap (λ (t : List (ℕ × ℕ)). t ++ bytes) p.frames
          ∙ (append_assoc (each frame_bytes p.done) p.part bytes
              ∙ (ap (◌++◌ (each frame_bytes p.done)) is_frame
                  ∙ (sym (each-snoc frame_bytes p.done q) ∙ sym (append-nil _)))));
  position = subst (Position d'.bufin []) (sym over) (still refl);
}

-- One more `sendto`.
sent-snoc :
    (sent : List (ℕ × Bytes)) (i : ℕ) (chunk : Bytes) (front back : List (ℕ × ℕ))
    → sent_bytes sent ≡ front ++ back
    → sent_bytes (sent ++ (i, chunk) ∷ []) ≡ front ++ (back ++ bytes_to i chunk)
sent-snoc sent i chunk front back e =
    each-snoc (λ s. bytes_to s.0 s.1) sent (i, chunk)
    ∙ (ap (λ (t : List (ℕ × ℕ)). t ++ bytes_to i chunk) e
        ∙ append_assoc front back (bytes_to i chunk))

-- The state after the last `sendto` of a frame.
last-Passed :
    (written : ℕ) (w : Writing) (d : Driver) (p : Passed d) (s : Sending w d.bufin p.part)
    → w.left - length (take written s.todo) ≡ 0
    → let chunk = take written s.todo in
      Passed (record d {
        sent = d.sent ++ (w.to, chunk) ∷ [];
        bufin = drop (w.off + length chunk) d.bufin;
        current_write = none;
      })
last-Passed written w d p s over = rw (Sending-last s written over) (
    done-Passed d
      (record d {
        sent = d.sent ++ (w.to, s.todo) ∷ [];
        bufin = drop (w.off + length s.todo) d.bufin;
        current_write = none;
      })
      p (parcel_of s) [] (bytes_to w.to s.todo) s.whole
      (parcel-stream s ∙ ap (◌++◌ (raw (parcel_of s))) (sym (Sending-behind s))) refl
      (sym (append-nil d.printed)) (sym (parcel-frame s).0)
      (each-snoc (λ s. bytes_to s.0 s.1) d.sent (w.to, s.todo)) (sym (parcel-frame s).1) refl)

pub write_frame-Passed :
    (written : ℕ) (w : Writing) (d : Driver) (p : Passed d)
    → Position d.bufin p.part (some w)
    → After Passed (write_frame written w d)
unfolding write_frame
write_frame-Passed written w d p (stuck e f) =
    rw (e, take-nil written, write_frame) (returned-After Passed)
write_frame-Passed written w d p (sending s) =
    let chunk = take written s.todo in
    rw (Sending-take s, write_frame)
      (if-After Passed (length chunk == 0) (returned-After Passed) (
        if-After_cases Passed (w.left - length chunk == 0)
          (λ over. next-After Passed _ (last-Passed written w d p s ((==_iff _ 0).0 over)))
          (λ more. next-After Passed _ (record {
            done = p.done;
            part = p.part ++ bytes_to w.to chunk;
            whole = p.whole;
            stream = p.stream;
            texts = p.texts;
            frames = sent-snoc d.sent w.to chunk (each frame_bytes p.done) p.part p.frames;
            position = sending (Sending-more s written);
          }))))

-- A text is printed.
pub text-Passed :
    (d : Driver) (p : Passed d)
    → d.current_write ≡ none
    → header_size ≤ ntohs d.bufin
    → ntohs d.bufin ≤ length d.bufin
    → ntohs (drop 2 d.bufin) ≡ 0
    → Passed (record d {
      bufin = drop (ntohs d.bufin) d.bufin;
      printed =
          d.printed ++ c_string (take (ntohs d.bufin - header_size) (drop header_size d.bufin));
    })
text-Passed d p free low high zero_type =
    let f = front d.bufin (ntohs d.bufin) low high in
    let text : type_of f.parcel ≡ 0 = sym f.type ∙ zero_type in
    rw (f.behind, f.body)
      (done-Passed d _ p f.parcel (c_string f.parcel.body) [] (f.head, f.size ∙ sym f.length_body)
        f.split refl refl (rw text refl) (sym (append-nil (sent_bytes d.sent)))
        (rw (text, Position-none d.bufin p.part (subst (Position d.bufin p.part) free p.position))
          refl)
        free)

nonzero : (n : ℕ) → (n == 0) ≡ false → n - 1 + 1 ≡ n
nonzero n h = ground arith

begin :
    (d : Driver) (p : Passed d)
    → d.current_write ≡ none
    → ntohs d.bufin ≤ length d.bufin
    → (ntohs (drop 2 d.bufin) == 0) ≡ false
    → Position d.bufin p.part (
        some (record {
          to = ntohs (drop 2 d.bufin) - 1;
          off = header_size;
          left = ntohs d.bufin - header_size;
        }))
begin d p free high frame =
    let nothing : p.part ≡ [] =
      Position-none d.bufin p.part (subst (Position d.bufin p.part) free p.position) in
    elim (Bool-cases (ltb (ntohs d.bufin) header_size)) [
      | inl short ↦ stuck (omega (arith, ltb→lt (ntohs d.bufin) header_size short)) nothing
      | inr long ↦
          let f = front d.bufin (ntohs d.bufin) (ltb→le (ntohs d.bufin) header_size long) high in
          sending (record {
            head = f.parcel.head;
            gone = [];
            todo = f.parcel.body;
            rest = f.rest;
            split = f.split ∙ append_assoc f.parcel.head f.parcel.body f.rest;
            whole = (f.head, f.size ∙ sym f.length_body);
            goal = sym f.type ∙ sym (nonzero (ntohs (drop 2 d.bufin)) frame);
            off = ap length (append-nil f.parcel.head) ∙ f.head;
            left = omega (arith, f.length_body);
            sent = nothing;
          })
    ]

-- A frame begins.
pub start_write-Passed :
    (d : Driver) (p : Passed d)
    → d.current_write ≡ none
    → ntohs d.bufin ≤ length d.bufin
    → (ntohs (drop 2 d.bufin) == 0) ≡ false
    → After Passed (start_write (ntohs d.bufin) (ntohs (drop 2 d.bufin)) d)
unfolding start_write
start_write-Passed d p free high frame =
    if-After Passed (ltb (length d.gifc) (ntohs (drop 2 d.bufin))) (returned-After Passed) (
      next-After Passed _ (record {
        done = p.done;
        part = p.part;
        whole = p.whole;
        stream = p.stream;
        texts = p.texts;
        frames = p.frames;
        position = begin d p free high frame;
      }))

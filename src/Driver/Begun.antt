-- ===== src/Driver/Begun.antt =====
-- The messages for the child that were begun, and the steps that begin and write one.
use project_and_training_3_n.Base.{
  false, ℕ, suc, ◌+◌, ◌≡◌, refl, sym, ap, ◌∙◌, subst, Option, none, some, List, [], ◌∷◌, ◌++◌,
  Bytes, ◌==◌, length, length-append, take, drop, take-append-drop, append_assoc, append-nil, All,
  All-append, arith,
}
use project_and_training_3_n.Wire.{header_size, header_bytes}
use project_and_training_3_n.Wire.Delivery.{Message, encode, encode_all}
use project_and_training_3_n.Driver.{Source, command, interface, Reading, Driver}
use project_and_training_3_n.Driver.Round.{finish_read, command_message}
use project_and_training_3_n.Driver.Parcels.{each, each-snoc}
use project_and_training_3_n.Driver.Lines.{
  typed_text, Place, frame_job, Place-written, Place-none, Place-finish,
}
use project_and_training_3_n.Driver.Waiting.{IsJob, kept, began, AllWaiting, AllWaiting-set, Queued}

-- What is left to write of the job.
abbrev pub pending : Option Reading → Bytes
pending none = []
pending (some r) = r.rest

encode_all-append : (ms ns : List Message) → encode_all (ms ++ ns) ≡ encode_all ms ++ encode_all ns
encode_all-append [] ns = refl
encode_all-append (m ∷ ms) ns =
    ap (◌++◌ (encode m)) (encode_all-append ms ns)
    ∙ sym (append_assoc (encode m) (encode_all ms) (encode_all ns))

-- Bytes that were pending are written.
moved :
    (to_child rest : Bytes) (n : ℕ) → (to_child ++ take n rest) ++ drop n rest ≡ to_child ++ rest
moved to_child rest n =
    append_assoc to_child (take n rest) (drop n rest) ∙ ap (◌++◌ to_child) (take-append-drop n rest)

-- The message that `command_message` makes.
pub command_message-encode :
    (line : Bytes) → command_message line ≡ encode (record { type = 0; body = line ++ b'\n' ∷ [] })
unfolding command_message
command_message-encode line =
    ap (λ (t : ℕ). header_bytes (record { size = t; type = 0 }) ++ (line ++ b'\n' ∷ []))
      (omega (arith, length-append line (b'\n' ∷ [])))

-- The line with its newline is the front of the text.
pub split :
    (line behind : Bytes) {text : Bytes}
    → text ≡ line ++ b'\n' ∷ behind
    → text ≡ (line ++ b'\n' ∷ []) ++ behind
split line behind e = e ∙ sym (append_assoc line (b'\n' ∷ []) behind)

next_type : (i : ℕ) → i + 1 ≡ suc i
next_type i = omega arith

later : (i : ℕ) → (suc i == 0) ≡ false
later i = ground arith

pub length_line :
    (line : Bytes) → header_size + length (line ++ b'\n' ∷ []) ≡ 0 + length (command_message line)
unfolding command_message
length_line line = omega arith

-- `first` is what was written before the loop.
module _ (Came : ℕ → Bytes → Type 0) (first : Bytes) where
  -- The messages that were begun: what was written and what is pending are their bytes.
  -- What they have of the text that was typed is a front part of it.
  pub record Begun (to_child : Bytes) (gifc : List Bytes) (cmd_line from_user : Bytes)
      (job : Option Reading) : Type 0 where
    pub messages : List Message
    pub stream : to_child ++ pending job ≡ first ++ encode_all messages
    pub jobs : All (IsJob Came) messages
    pub waiting : AllWaiting Came 0 gifc
    pub more : Bytes
    pub text : from_user ≡ each typed_text messages ++ more
    pub place : Place cmd_line more job

  abbrev pub InOrder : Driver → Type 0
  InOrder d = Begun d.to_child d.gifc d.cmd_line d.from_user d.current_read

  -- With no job, a new one may begin.
  pub begin :
      (to_child : Bytes) (gifc : List Bytes) (cmd_line from_user : Bytes) (r : Reading)
      (m : Message) (more : Bytes)
      → r.rest ≡ encode m
      → (IsJob Came) m
      → cmd_line ≡ typed_text m ++ more
      → Place cmd_line more (some r)
      → Begun to_child gifc cmd_line from_user none
      → Begun to_child gifc cmd_line from_user (some r)
  begin to_child gifc cmd_line from_user r m more e j split place b = record {
    messages = b.messages ++ m ∷ [];
    stream =
        ap (λ (t : Bytes). t ++ r.rest) (sym (append-nil to_child) ∙ b.stream)
        ∙ (append_assoc first (encode_all b.messages) r.rest
            ∙ ap (◌++◌ first) (
                ap (◌++◌ (encode_all b.messages)) (e ∙ sym (append-nil (encode m)))
                ∙ sym (encode_all-append b.messages (m ∷ []))));
    jobs = All-append (IsJob Came) b.messages (m ∷ []) b.jobs (j, tt);
    waiting = b.waiting;
    more = more;
    text =
        b.text
        ∙ (ap (◌++◌ (each typed_text b.messages)) (sym (Place-none cmd_line b.more b.place) ∙ split)
            ∙ (sym (append_assoc (each typed_text b.messages) (typed_text m) more)
                ∙ ap (λ (t : Bytes). t ++ more) (sym (each-snoc typed_text b.messages m))));
    place = place;
  }

  finish_read-InOrder :
      (from : Source) (off : ℕ) (d : Driver) (job : Option Reading)
      (b : Begun d.to_child d.gifc d.cmd_line d.from_user job)
      → d.to_child ≡ first ++ encode_all b.messages
      → Place (finish_read from off d).cmd_line b.more none
      → InOrder (finish_read from off d)
  unfolding finish_read
  finish_read-InOrder command off d job b stream place = record {
    messages = b.messages;
    stream = append-nil d.to_child ∙ stream;
    jobs = b.jobs;
    waiting = b.waiting;
    more = b.more;
    text = b.text;
    place = place;
  }
  finish_read-InOrder (interface i) off d job b stream place = record {
    messages = b.messages;
    stream = append-nil d.to_child ∙ stream;
    jobs = b.jobs;
    waiting = AllWaiting-set Came d.gifc 0 i b.waiting;
    more = b.more;
    text = b.text;
    place = place;
  }

  -- Bytes of the job are written.
  pub written_job :
      (d : Driver) (r : Reading) (n : ℕ)
      → Begun d.to_child d.gifc d.cmd_line d.from_user (some r)
      → let taken = take n r.rest in
        Begun
          (d.to_child ++ taken)
          d.gifc
          d.cmd_line
          d.from_user
          (some (record { from = r.from; off = r.off + length taken; rest = drop n r.rest }))
  written_job d r n b =
      let taken = take n r.rest in
      let sum : length taken + length (drop n r.rest) ≡ length r.rest =
        sym (length-append taken (drop n r.rest)) ∙ ap length (take-append-drop n r.rest) in
      record {
        messages = b.messages;
        stream = moved d.to_child r.rest n ∙ b.stream;
        jobs = b.jobs;
        waiting = b.waiting;
        more = b.more;
        text = b.text;
        place = Place-written d.cmd_line b.more r (length taken) (drop n r.rest) sum b.place;
      }

  -- The job is done.
  pub last_job :
      (d : Driver) (r : Reading) (n : ℕ)
      → Begun d.to_child d.gifc d.cmd_line d.from_user (some r)
      → drop n r.rest ≡ []
      → InOrder (
          finish_read r.from
            (r.off + length (take n r.rest))
            (record d { to_child = d.to_child ++ take n r.rest }))
  last_job d r n b over =
      let taken = take n r.rest in
      let out = d.to_child ++ taken in
      let w = written_job d r n b in
      finish_read-InOrder r.from (r.off + length taken) (record d { to_child = out }) _ w
        (sym (append-nil out) ∙ (ap (◌++◌ out) (sym over) ∙ w.stream))
        (Place-finish (record d { to_child = out }) w.more _ (ap length over) w.place)

  -- The job and the buffers after a look at them.
  pub queue :
      (d : Driver) (gifc' : List Bytes) (job' : Option Reading)
      → AllWaiting Came 0 gifc'
      → Queued Came d.current_read job'
      → InOrder d
      → Begun d.to_child gifc' d.cmd_line d.from_user job'
  queue d gifc' job' w q b =
      let now : Begun d.to_child gifc' d.cmd_line d.from_user d.current_read = record {
        messages = b.messages;
        stream = b.stream;
        jobs = b.jobs;
        waiting = w;
        more = b.more;
        text = b.text;
        place = b.place;
      } in
      let P = Begun d.to_child gifc' d.cmd_line d.from_user in
      elim q [
        | kept e ↦ subst P (sym e) now
        | began r m idle e encoded j i from type ↦
            let none_typed : typed_text m ≡ [] = rw (type ∙ next_type i, later i) refl in
            subst P (sym e) (
              begin d.to_child gifc' d.cmd_line d.from_user r m d.cmd_line encoded j
                (ap (λ (t : Bytes). t ++ d.cmd_line) (sym none_typed)) (frame_job i from refl)
                (subst P idle now))
      ]

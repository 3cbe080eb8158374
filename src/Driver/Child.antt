-- ===== src/Driver/Child.antt =====
-- What network-driver.c writes to its child: whole messages, one behind the other.
use project_and_training_3_n.Base.{
  ◌&&◌, get_elem?, ℕ, zero, suc, ◌+◌, ◌*◌, ◌-◌, ◌≡◌, List-cases, inl, inr, refl, ap, ◌∙◌, subst,
  Option, none, some, List, [], ◌∷◌, ◌++◌, Bytes, ◌==◌, ltb, length, length-append, take, drop,
  append_assoc, All, Option-cases, ntohs, arith,
}
use project_and_training_3_n.Wire.{header_size, header_bytes, mac_addr_size}
use project_and_training_3_n.Wire.Delivery.{Message, encode, encode_all}
use project_and_training_3_n.Libc.{strchr}
use project_and_training_3_n.Libc.Tokens.{strchr-some}
use project_and_training_3_n.Driver.{frame, Reading, Driver, Received, Ready, next}
use project_and_training_3_n.Driver.After.{
  After, next-After, returned-After, running-After, unbounded-After, if-After, bind-After,
}
use project_and_training_3_n.Driver.Parts.{IsKept, rounds-After}
use project_and_training_3_n.Driver.Round.{
  wants_frames, insert_tags, read_command, write_job, write_child, write_frame, write_tun,
  start_command, read_child, start_write, handle_bufin, read_network, rounds, mac_message, all_macs,
  start,
}
use project_and_training_3_n.Driver.Parcels.{each}
use project_and_training_3_n.Driver.Lines.{typed_text, Place, free, line_job, Place-append}
use project_and_training_3_n.Driver.Waiting.{
  Heard, wants_frames-Heard, IsJob, typed, Reads, read_tuns-Reads, no_frames-AllWaiting,
}
use project_and_training_3_n.Driver.Begun.{
  pending, command_message-encode, split, length_line, Begun, InOrder, begin, written_job, last_job,
  queue,
}

-- `first` is what was written before the loop.
module _ (Came : ℕ → Bytes → Type 0) (first : Bytes) where
  read_command-InOrder :
      (event : Option Bytes) (d : Driver)
      → InOrder Came first d
      → After (InOrder Came first) (read_command event d)
  unfolding read_command
  read_command-InOrder none d b = next-After (InOrder Came first) d b
  read_command-InOrder (some []) d b = returned-After (InOrder Came first)
  read_command-InOrder (some (c ∷ cs)) d b = next-After (InOrder Came first) _ (record {
    messages = b.messages;
    stream = b.stream;
    jobs = b.jobs;
    waiting = b.waiting;
    more = b.more ++ c ∷ cs;
    text =
        ap (λ (t : Bytes). t ++ c ∷ cs) b.text
        ∙ append_assoc (each typed_text b.messages) b.more (c ∷ cs);
    place = Place-append d.cmd_line b.more (c ∷ cs) d.current_read b.place;
  })

  write_job-InOrder :
      (written : ℕ) (r : Reading) (d : Driver)
      → Begun Came first d.to_child d.gifc d.cmd_line d.from_user (some r)
      → After (InOrder Came first) (write_job written r d)
  unfolding write_job
  write_job-InOrder written r d b = elim (List-cases (drop written r.rest)) [
    | inl over ↦
        rw (over, write_job)
          (next-After (InOrder Came first) _ (last_job Came first d r written b over))
    | inr (c, cs, more) ↦
        rw (more, write_job)
          (next-After (InOrder Came first) _ (
            subst
              (λ (t : Bytes).
                Begun Came first (d.to_child ++ take written r.rest) d.gifc d.cmd_line d.from_user (
                  some (record {
                    from = r.from;
                    off = r.off + length (take written r.rest);
                    rest = t;
                  })))
              more (written_job Came first d r written b)))
  ]

  write_child-InOrder :
      (event : Option ℕ) (d : Driver)
      → InOrder Came first d
      → After (InOrder Came first) (write_child event d)
  unfolding write_child
  write_child-InOrder none d b = next-After (InOrder Came first) d b
  write_child-InOrder (some written) d b = elim (Option-cases d.current_read) [
    | inl idle ↦ rw (idle, write_child) (next-After (InOrder Came first) d b)
    | inr (r, busy) ↦
        rw (busy, write_child)
          (if-After (InOrder Came first) (written == 0) (returned-After (InOrder Came first)) (
            write_job-InOrder written r d
              (subst (Begun Came first d.to_child d.gifc d.cmd_line d.from_user) busy b)))
  ]

  write_tun-InOrder :
      (event : Option ℕ) (d : Driver)
      → InOrder Came first d
      → After (InOrder Came first) (write_tun event d)
  unfolding write_tun write_frame
  write_tun-InOrder none d b = next-After (InOrder Came first) d b
  write_tun-InOrder (some written) d b = elim (Option-cases d.current_write) [
    | inl idle ↦ rw (idle, write_tun) (next-After (InOrder Came first) d b)
    | inr (w, busy) ↦
        let piece = take written (take w.left (drop w.off d.bufin)) in
        rw (busy, write_tun)
          (if-After (InOrder Came first) (length piece == 0) (returned-After (InOrder Came first)) (
            if-After (InOrder Came first) (w.left - length piece == 0)
              (next-After (InOrder Came first) _ b) (next-After (InOrder Came first) _ b)))
  ]

  start_command-InOrder : (d : Driver) → InOrder Came first d → InOrder Came first (start_command d)
  unfolding start_command
  start_command-InOrder d b = elim (Option-cases d.current_read) [
    | inr (r, busy) ↦ rw (busy, start_command) b
    | inl idle ↦ elim (Option-cases (strchr b'\n' d.cmd_line)) [
      | inl missing ↦ rw (idle, missing, start_command) b
      | inr ((line, behind), found) ↦
          rw (idle, found, start_command)
            (begin Came first d.to_child d.gifc d.cmd_line d.from_user _
              (record { type = 0; body = line ++ b'\n' ∷ [] }) behind (command_message-encode line)
              (typed line (strchr-some b'\n' d.cmd_line found).0 refl refl)
              (split line behind (strchr-some b'\n' d.cmd_line found).1)
              (line_job (line ++ b'\n' ∷ []) refl
                (split line behind (strchr-some b'\n' d.cmd_line found).1) (length_line line))
              (subst (Begun Came first d.to_child d.gifc d.cmd_line d.from_user) idle b))
    ]
  ]

  read_child-InOrder :
      (event : Option Bytes) (d : Driver)
      → InOrder Came first d
      → After (InOrder Came first) (read_child event d)
  unfolding read_child
  read_child-InOrder none d b = next-After (InOrder Came first) d b
  read_child-InOrder (some []) d b = returned-After (InOrder Came first)
  read_child-InOrder (some (c ∷ cs)) d b = next-After (InOrder Came first) _ b

  handle_bufin-InOrder :
      (fuel : ℕ) (d : Driver)
      → InOrder Came first d
      → After (InOrder Came first) (handle_bufin fuel d)
  unfolding handle_bufin start_write
  handle_bufin-InOrder zero d b = running-After (InOrder Came first)
  handle_bufin-InOrder (suc fuel) d b = elim (Option-cases d.current_write) [
    | inr (w, busy) ↦ rw (busy, handle_bufin) (next-After (InOrder Came first) d b)
    | inl idle ↦
        let s = ntohs d.bufin in
        let n = ntohs (drop 2 d.bufin) in
        let rest : After (InOrder Came first) (handle_bufin fuel _) =
          handle_bufin-InOrder fuel _ b in
        rw (idle, handle_bufin)
          (if-After (InOrder Came first) (ltb (length d.bufin) header_size)
            (next-After (InOrder Came first) d b)
            (if-After (InOrder Came first) (ltb (length d.bufin) s)
              (next-After (InOrder Came first) d b)
              (if-After (InOrder Came first) (n == 0)
                (if-After (InOrder Came first) (ltb 0 s && ltb s header_size)
                  (unbounded-After (InOrder Came first)) rest)
                (if-After (InOrder Came first) (ltb (length d.gifc) n)
                  (returned-After (InOrder Came first)) (next-After (InOrder Came first) _ b)))))
  ]

  read_network-InOrder :
      (events : List (Option Received)) (d0 d : Driver)
      → Heard Came 0 events
      → InOrder Came first d
      → After (InOrder Came first) (read_network (wants_frames d0.gifc events) d)
  unfolding read_network
  read_network-InOrder events d0 d heard b =
      bind-After (Reads Came 0 d.current_read) (InOrder Came first) _ _
        (read_tuns-Reads Came 0 (wants_frames d0.gifc events) d.gifc d.current_read
          (wants_frames-Heard Came 0 d0.gifc events heard) b.waiting)
        (λ a p. next-After (InOrder Came first) _ (queue Came first d a.0 a.1 p.0 p.1 b))

  InOrder-IsKept : IsKept (Heard Came 0) (InOrder Came first)
  InOrder-IsKept = record {
    commands = read_command-InOrder;
    jobs = write_child-InOrder;
    frames = write_tun-InOrder;
    starts = start_command-InOrder;
    input = read_child-InOrder;
    messages = handle_bufin-InOrder;
    network = read_network-InOrder;
  }

-- The list of addresses, as `main` writes it.
abbrev pub address_list : List Bytes → Message
address_list macs = record { type = 0; body = all_macs macs }

length-all_macs :
    (macs : List Bytes)
    → All (λ mac. length mac ≡ mac_addr_size) macs
    → length (all_macs macs) ≡ length macs * mac_addr_size
length-all_macs [] v = refl
length-all_macs (mac ∷ macs) v =
    omega (arith, length-append mac (all_macs macs), v.0, length-all_macs macs v.1)

mac_message-encode :
    (macs : List Bytes)
    → All (λ mac. length mac ≡ mac_addr_size) macs
    → mac_message macs ≡ encode (address_list macs)
unfolding mac_message
mac_message-encode macs v =
    ap (λ (t : ℕ). header_bytes (record { size = t; type = 0 }) ++ all_macs macs)
      (omega (arith, length-all_macs macs v))

start-InOrder :
    (Came : ℕ → Bytes → Type 0) (macs : List Bytes) → InOrder Came (mac_message macs) (start macs)
unfolding start
start-InOrder Came macs = record {
  messages = [];
  stream = refl;
  jobs = tt;
  waiting = no_frames-AllWaiting Came macs 0;
  more = [];
  text = refl;
  place = free refl;
}

-- A frame that a round has for interface `i`, with its tags.
pub data Arrived (i : ℕ) (body : Bytes) : List Ready → Type 0 where
  now :
      {e : Ready} {es : List Ready} (bytes : Bytes) (tags : List (ℕ × ℕ))
      → get_elem? e.tun_in i ≡ some (some (frame bytes tags))
      → body ≡ insert_tags bytes tags
      → Arrived i body (e ∷ es)
  later_on : {e : Ready} {es : List Ready} → Arrived i body es → Arrived i body (e ∷ es)

events-Heard :
    (Came : ℕ → Bytes → Type 0) (events : List (Option Received)) (k : ℕ)
    → ((i : ℕ) (bytes : Bytes) (tags : List (ℕ × ℕ))
        → get_elem? events i ≡ some (some (frame bytes tags))
        → Came (k + i) (insert_tags bytes tags))
    → Heard Came k events
events-Heard Came [] k came = tt
events-Heard Came (event ∷ events) k came = (
  (λ c cs tags e.
      subst (λ (t : ℕ). Came t (insert_tags (c ∷ cs) tags)) (let e' : k + 0 ≡ k = omega arith in e')
        (came 0 (c ∷ cs) tags (ap some e))),
  events-Heard Came events (k + 1) (λ i bytes tags e.
      subst (λ (t : ℕ). Came t (insert_tags bytes tags))
        (let e' : k + suc i ≡ k + 1 + i = omega arith in e') (came (suc i) bytes tags e)),
)

all-Heard :
    (Came : ℕ → Bytes → Type 0) (es : List Ready)
    → ((i : ℕ) (body : Bytes) → Arrived i body es → Came i body)
    → All (λ e. Heard Came 0 e.tun_in) es
all-Heard Came [] came = tt
all-Heard Came (e ∷ es) came = (
  events-Heard Came e.tun_in 0 (λ i bytes tags same.
      subst (λ (t : ℕ). Came t (insert_tags bytes tags)) (let e' : i ≡ 0 + i = omega arith in e')
        (came i (insert_tags bytes tags) (now bytes tags same refl))),
  all-Heard Came es (λ i body a. came i body (later_on a)),
)

-- From the start of `run`, with addresses of six bytes, after any rounds: what was written to the
-- child and what is left of the message that is being written are together the list of addresses
-- and then whole messages, each of them a line that was typed, with its newline and type 0, or a
-- frame that one of these rounds had for an interface, with its tags and the number of the
-- interface from 1. The lines among them are a front part of what was typed, each once and in
-- order; the rest of it stands in `cmd_line`, behind the line that is being written, if one is.
pub rounds-encode_all :
    (macs : List Bytes) (es : List Ready) (d : Driver)
    → All (λ mac. length mac ≡ mac_addr_size) macs
    → rounds es (start macs) ≡ next d
    → (ms : List Message) × (more : Bytes) × All (IsJob (λ i body. Arrived i body es)) ms
      × (d.to_child ++ pending d.current_read ≡ encode_all (address_list macs ∷ ms))
      × (d.from_user ≡ each typed_text ms ++ more)
      × Place d.cmd_line more d.current_read
rounds-encode_all macs es d v e =
    let first = mac_message macs in
    let Came : ℕ → Bytes → Type 0 = λ i body. Arrived i body es in
    let b =
      (rounds-After (Heard Came 0) (InOrder Came first) (InOrder-IsKept Came first) es (start macs)
          (all-Heard Came es (λ i body a. a)) (start-InOrder Came macs)).holds
        d e in
    (
      b.messages,
      b.more,
      b.jobs,
      b.stream ∙ ap (λ (t : Bytes). t ++ encode_all b.messages) (mac_message-encode macs v),
      b.text,
      b.place,
    )

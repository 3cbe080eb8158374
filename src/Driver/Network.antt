-- ===== src/Driver/Network.antt =====
-- What network-driver.c sends and prints: what its child wrote, in the order in which it was written.
use project_and_training_3_n.Base.{
  ◌&&◌, take, ◌-◌, All, ℕ, zero, suc, ◌≡◌, inl, inr, refl, ap, ◌∙◌, ==_iff, ltb→le, subst, Option,
  none, some, List, [], ◌∷◌, ◌++◌, Bytes, ntohs, ◌==◌, ltb, length, drop, append_assoc, append-nil,
  Option-cases, List-cases,
}
use project_and_training_3_n.Wire.{header_size}
use project_and_training_3_n.Libc.{strchr}
use project_and_training_3_n.Driver.{
  Source, Reading, command, interface, Driver, Received, Ready, next,
}
use project_and_training_3_n.Driver.After.{
  nothing-or-more, After, anything-After, next-After, returned-After, running-After,
  unbounded-After, if-After, if-After_cases, bind-After,
}
use project_and_training_3_n.Router.Command.{c_string}
use project_and_training_3_n.Driver.Parts.{IsKept, rounds-After}
use project_and_training_3_n.Driver.Parcels.{raw, each}
use project_and_training_3_n.Driver.Round.{
  read_command, finish_read, write_job, write_child, write_tun, start_command, read_child,
  handle_bufin, read_tuns, read_network, wants_frames, rounds, start,
}
use project_and_training_3_n.Driver.Sending.{Position, still, Position-append}
use project_and_training_3_n.Driver.Outgoing.{
  Passed, same, write_frame-Passed, text-Passed, start_write-Passed,
}

read_command-Passed :
    (event : Option Bytes) (d : Driver) → Passed d → After Passed (read_command event d)
unfolding read_command
read_command-Passed none d p = next-After Passed d p
read_command-Passed (some []) d p = returned-After Passed
read_command-Passed (some (c ∷ cs)) d p = next-After Passed _ (same d _ refl refl refl refl refl p)

read_child-Passed :
    (event : Option Bytes) (d : Driver) → Passed d → After Passed (read_child event d)
unfolding read_child
read_child-Passed none d p = next-After Passed d p
read_child-Passed (some []) d p = returned-After Passed
read_child-Passed (some (c ∷ cs)) d p = next-After Passed _ (record {
  done = p.done;
  part = p.part;
  whole = p.whole;
  stream =
      ap (λ (t : Bytes). t ++ c ∷ cs) p.stream ∙ append_assoc (each raw p.done) d.bufin (c ∷ cs);
  texts = p.texts;
  frames = p.frames;
  position = Position-append d.bufin (c ∷ cs) p.part d.current_write p.position;
})

write_tun-Passed : (event : Option ℕ) (d : Driver) → Passed d → After Passed (write_tun event d)
unfolding write_tun
write_tun-Passed none d p = next-After Passed d p
write_tun-Passed (some written) d p = elim (Option-cases d.current_write) [
  | inl idle ↦ rw (idle, write_tun) (next-After Passed d p)
  | inr (w, busy) ↦
      rw (busy, write_tun)
        (write_frame-Passed written w d p (subst (Position d.bufin p.part) busy p.position))
]

finish_read-Passed :
    (from : Source) (off : ℕ) (d : Driver) → Passed d → Passed (finish_read from off d)
unfolding finish_read
finish_read-Passed command off d p = same d _ refl refl refl refl refl p
finish_read-Passed (interface i) off d p = same d _ refl refl refl refl refl p

write_job-Passed :
    (written : ℕ) (r : Reading) (d : Driver) → Passed d → After Passed (write_job written r d)
unfolding write_job
write_job-Passed written r d p = elim (List-cases (drop written r.rest)) [
  | inl over ↦
      rw (over, write_job)
        (next-After Passed _ (finish_read-Passed r.from _ _ (same d _ refl refl refl refl refl p)))
  | inr (c, cs, more) ↦
      rw (more, write_job) (next-After Passed _ (same d _ refl refl refl refl refl p))
]

write_child-Passed : (event : Option ℕ) (d : Driver) → Passed d → After Passed (write_child event d)
unfolding write_child
write_child-Passed none d p = next-After Passed d p
write_child-Passed (some written) d p = elim (Option-cases d.current_read) [
  | inl free ↦ rw (free, write_child) (next-After Passed d p)
  | inr (r, busy) ↦
      rw (busy, write_child)
        (if-After Passed (written == 0) (returned-After Passed) (write_job-Passed written r d p))
]

start_command-Passed : (d : Driver) → Passed d → Passed (start_command d)
unfolding start_command
start_command-Passed d p = elim (Option-cases d.current_read) [
  | inr (r, busy) ↦ rw (busy, start_command) p
  | inl free ↦ elim (Option-cases (strchr b'\n' d.cmd_line)) [
    | inl missing ↦ rw (free, missing, start_command) p
    | inr ((line, behind), found) ↦
        rw (free, found, start_command) (same d _ refl refl refl refl refl p)
  ]
]

-- Nothing is asked of the events.
abbrev Anything : List (Option Received) → Type 0
Anything events = Unit

read_network-Passed :
    (events : List (Option Received)) (d0 d : Driver)
    → Anything events
    → Passed d
    → After Passed (read_network (wants_frames d0.gifc events) d)
unfolding read_network
read_network-Passed events d0 d heard p =
    bind-After (λ _. Unit) Passed _ _
      (anything-After (read_tuns 0 (wants_frames d0.gifc events) d.gifc d.current_read))
      (λ a _. next-After Passed _ (same d _ refl refl refl refl refl p))

-- A text of size 0 stays where it is.
nothing_taken :
    (d : Driver)
    → Passed d
    → ntohs d.bufin ≡ 0
    → Passed (record d {
      bufin = drop (ntohs d.bufin) d.bufin;
      printed =
          d.printed ++ c_string (take (ntohs d.bufin - header_size) (drop header_size d.bufin));
    })
unfolding strchr
nothing_taken d p e = rw e (same d _ refl refl (append-nil d.printed) refl refl p)

handle_bufin-Passed : (fuel : ℕ) (d : Driver) → Passed d → After Passed (handle_bufin fuel d)
unfolding handle_bufin
handle_bufin-Passed zero d p = running-After Passed
handle_bufin-Passed (suc fuel) d p = elim (Option-cases d.current_write) [
  | inr (w, busy) ↦ rw (busy, handle_bufin) (next-After Passed d p)
  | inl free ↦
      let s = ntohs d.bufin in
      let n = ntohs (drop 2 d.bufin) in
      rw (free, handle_bufin)
        (if-After Passed (ltb (length d.bufin) header_size) (next-After Passed d p) (
          if-After_cases Passed (ltb (length d.bufin) s) (λ _. next-After Passed d p)
            (λ high.
              if-After_cases Passed (n == 0)
                (λ zero_type.
                  if-After_cases Passed (ltb 0 s && ltb s header_size) (λ _. unbounded-After Passed)
                    (λ low. handle_bufin-Passed fuel _ (elim (nothing-or-more s low) [
                      | inl nothing ↦ nothing_taken d p nothing
                      | inr more ↦
                          text-Passed d p free more (ltb→le (length d.bufin) (ntohs d.bufin) high)
                            ((==_iff n 0).0 zero_type)
                    ])))
                (λ frame.
                  start_write-Passed d p free (ltb→le (length d.bufin) (ntohs d.bufin) high)
                    frame))))
]

Passed-IsKept : IsKept Anything Passed
Passed-IsKept = record {
  commands = read_command-Passed;
  jobs = write_child-Passed;
  frames = write_tun-Passed;
  starts = start_command-Passed;
  input = read_child-Passed;
  messages = handle_bufin-Passed;
  network = read_network-Passed;
}

nothing : (es : List Ready) → All (λ e. Anything e.tun_in) es
nothing [] = tt
nothing (e ∷ es) = (tt, nothing es)

start-Passed : (macs : List Bytes) → Passed (start macs)
unfolding start
start-Passed macs = record {
  done = [];
  part = [];
  whole = tt;
  stream = refl;
  texts = refl;
  frames = refl;
  position = still refl;
}

-- From the start of `run`, after any rounds: the bytes that the child wrote are whole messages, one
-- behind the other, and then what stands in `bufin`. What is printed are the texts of the messages
-- of type 0, up to a 0 in each. What is sent are the bytes of the other messages, in order and each
-- once, to the interfaces of their types, and then those that are sent of the message at the front
-- of `bufin`, if one is being sent.
pub rounds-Passed :
    (macs : List Bytes) (es : List Ready) (d : Driver) → rounds es (start macs) ≡ next d → Passed d
rounds-Passed macs es d e =
    (rounds-After Anything Passed Passed-IsKept es (start macs) (nothing es)
        (start-Passed macs)).holds
      d e

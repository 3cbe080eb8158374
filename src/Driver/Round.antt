-- ===== src/Driver/Round.antt =====
-- One round of the loop of `run`, part by part, in the order of the source.
use project_and_training_3_n.Base.{
  ◌&&◌, ℕ, zero, suc, ◌+◌, ◌-◌, ◌*◌, Bool, true, false, Option, none, some, List, [], ◌∷◌, ◌++◌,
  Bytes, htons, ntohs, ◌==◌, ltb, if◌then◌else◌, length, set, take, drop,
}
use project_and_training_3_n.Wire.{header_size, mac_addr_size, header_bytes}
use project_and_training_3_n.Libc.{strchr}
use project_and_training_3_n.Router.Command.{c_string}
use project_and_training_3_n.Driver.{
  max_size, Source, command, interface, Reading, Writing, Driver, Received, failed, elsewhere,
  frame, Ready, Turn, next, returned, running, unbounded,
}

infixl 5 ◌>>=◌
abbrev pub ◌>>=◌ : {A B : Type 0} → Turn A → (A → Turn B) → Turn B
next a >>= f = f a
returned >>= f = returned
running >>= f = running
unbounded >>= f = unbounded

-- Only what was asked for is reported.
abbrev pub asked {ℓ} : {A : Type ℓ} → Bool → Option A → Option A
asked true o = o
asked false o = none

-- "Read from command-line"
unfoldable pub read_command : Option Bytes → Driver → Turn Driver
read_command none d = next d
read_command (some []) d = returned
read_command (some (b ∷ bs)) d =
    next (record d { cmd_line = d.cmd_line ++ b ∷ bs; from_user = d.from_user ++ b ∷ bs })

-- The buffer of the job that is done is emptied: of `cmd_line`, the line is removed.
unfoldable pub finish_read : Source → ℕ → Driver → Driver
finish_read command off d = record d {
  cmd_line = drop (off - header_size) d.cmd_line;
  current_read = none;
}
finish_read (interface i) off d = record d { gifc = set d.gifc i []; current_read = none }

-- "check if child is ready for reading": `written` bytes of `r.rest`, not more than there are.
unfoldable pub write_job : ℕ → Reading → Driver → Turn Driver
unfolding finish_read
write_job written r d =
    let taken = take written r.rest in
    let off = r.off + length taken in
    let out = d.to_child ++ taken in
    elim (drop written r.rest) [
      | [] ↦ next (finish_read r.from off (record d { to_child = out }))
      | b ∷ bs ↦ next (record d {
        to_child = out;
        current_read = some (record { from = r.from; off = off; rest = b ∷ bs });
      })
    ]

unfoldable pub write_child : Option ℕ → Driver → Turn Driver
unfolding write_job
write_child none d = next d
write_child (some written) d = elim d.current_read [
  | none ↦ next d
  | some r ↦ if written == 0 then returned else write_job written r d
]

-- "Forward child's stream to network interface"
unfoldable pub write_frame : ℕ → Writing → Driver → Turn Driver
write_frame written w d =
    let piece = take written (take w.left (drop w.off d.bufin)) in
    let off = w.off + length piece in
    let left = w.left - length piece in
    let sent = d.sent ++ (w.to, piece) ∷ [] in
    if length piece == 0
    then returned
    else if left == 0
    then next (record d { sent = sent; bufin = drop off d.bufin; current_write = none })
    else next (record d {
      sent = sent;
      current_write = some (record { to = w.to; off = off; left = left });
    })

unfoldable pub write_tun : Option ℕ → Driver → Turn Driver
unfolding write_frame
write_tun none d = next d
write_tun (some written) d = elim d.current_write [
  | none ↦ next d
  | some w ↦ write_frame written w d
]

-- The message of a line of the terminal, with the newline.
unfoldable pub command_message : Bytes → Bytes
command_message line =
    header_bytes (record { size = header_size + (length line + 1); type = 0 })
    ++ (line ++ b'\n' ∷ [])

-- The job of the first line, if there is one and no other job.
unfoldable pub start_command : Driver → Driver
unfolding command_message
start_command d = elim d.current_read [
  | some r ↦ d
  | none ↦ elim (strchr b'\n' d.cmd_line) [
    | none ↦ d
    | some (line, _) ↦ record d {
      current_read = some (record { from = command; off = 0; rest = command_message line });
    }
  ]
]

-- "Read from child's stream"
unfoldable pub read_child : Option Bytes → Driver → Turn Driver
read_child none d = next d
read_child (some []) d = returned
read_child (some (b ∷ bs)) d =
    next (record d { bufin = d.bufin ++ b ∷ bs; from_child = d.from_child ++ b ∷ bs })

-- A complete message at the front of `bufin`, of size `s` and type `n`, and no frame that waits. For
-- a size below 4, `bufin_write_left` is negative and `sendto` would get it as a length near 2^64; of
-- such a frame nothing is sent here, and `run` returns in `write_frame`.
unfoldable pub start_write : ℕ → ℕ → Driver → Turn Driver
start_write s n d =
    if ltb (length d.gifc) n
    then returned
    else next (record d {
      current_write = some (record { to = n - 1; off = header_size; left = s - header_size });
    })

-- "Handle data in 'bufin'", from `rbuf_again` on; `running` if the jumps have not ended within the
-- fuel. Of a text, at most `s - 4` bytes are printed, up to a 0. That number is negative for a size
-- below 4, and then nothing limits the text: it goes on behind the message, and behind `bufin_rpos`,
-- to a 0 somewhere. For a size of 0 the jumps then never end, so that it does not matter what was
-- printed; for a size from 1 to 3 the model does not follow the code, and stops with `unbounded`.
unfoldable pub handle_bufin : ℕ → Driver → Turn Driver
unfolding start_write
handle_bufin zero d = running
handle_bufin (suc fuel) d =
    let s = ntohs d.bufin in
    let n = ntohs (drop 2 d.bufin) in
    let text = c_string (take (s - header_size) (drop header_size d.bufin)) in
    let again =
      handle_bufin fuel (record d { bufin = drop s d.bufin; printed = d.printed ++ text }) in
    elim d.current_write [
      | some w ↦ next d
      | none ↦
          if ltb (length d.bufin) header_size
          then next d
          else if ltb (length d.bufin) s
          then next d
          else if n == 0
          then if ltb 0 s && ltb s header_size then unbounded else again
          else start_write s n d
    ]

-- The loop over the auxiliary data: a tag goes behind the addresses.
unfoldable pub insert_tags : Bytes → List (ℕ × ℕ) → Bytes
insert_tags bytes [] = bytes
insert_tags bytes ((tpid, tci) ∷ tags) =
    let tagged = take 12 bytes ++ (htons tpid ++ (htons tci ++ drop 12 bytes)) in
    let rest = insert_tags tagged tags in if ltb (length bytes) 12 then bytes else rest

-- The message of a frame that interface `i` received, the first of them 0.
unfoldable pub frame_message : ℕ → Bytes → List (ℕ × ℕ) → Bytes
unfolding insert_tags
frame_message i bytes tags =
    let whole = insert_tags bytes tags in
    header_bytes (record { size = length whole + header_size; type = i + 1 }) ++ whole

-- What `recvmsg` leaves in an empty `buftun`.
unfoldable pub receive_frame : ℕ → Option Received → Bytes → Turn Bytes
unfolding frame_message
receive_frame i none buftun = next buftun
receive_frame i (some r) (b ∷ bs) = next (b ∷ bs)
receive_frame i (some failed) [] = returned
receive_frame i (some elsewhere) [] = next []
receive_frame i (some (frame [] tags)) [] = returned
receive_frame i (some (frame (c ∷ cs) tags)) [] = next (frame_message i (c ∷ cs) tags)

-- The job of a frame that waits, if there is no other job.
unfoldable pub queue_frame : ℕ → Bytes → Option Reading → Option Reading
queue_frame i [] job = job
queue_frame i (b ∷ bs) (some r) = some r
queue_frame i (b ∷ bs) none = some (record { from = interface i; off = 0; rest = b ∷ bs })

-- "read from network interfaces", from interface `i` on: the buffers and the job.
unfoldable pub read_tuns :
    ℕ → List (Option Received) → List Bytes → Option Reading → Turn (List Bytes × Option Reading)
unfolding receive_frame queue_frame
read_tuns i events [] job = next ([], job)
read_tuns i [] (buftun ∷ gifc) job = do
  (rest, job') ← read_tuns (i + 1) [] gifc (queue_frame i buftun job)
  next (buftun ∷ rest, job')
read_tuns i (event ∷ events) (buftun ∷ gifc) job = do
  now ← receive_frame i event buftun
  (rest, job') ← read_tuns (i + 1) events gifc (queue_frame i now job)
  next (now ∷ rest, job')

unfoldable pub read_network : List (Option Received) → Driver → Turn Driver
unfolding read_tuns
read_network events d = do
  (gifc, job) ← read_tuns 0 events d.gifc d.current_read
  next (record d { gifc = gifc; current_read = job })

-- `bufin_rpos < MAX_SIZE`, and the same for `cmd_line` with the room for its header.
abbrev pub wants_child : Driver → Bool
wants_child d = ltb (length d.bufin) max_size

abbrev pub wants_command : Driver → Bool
wants_command d = ltb (header_size + length d.cmd_line) (max_size - header_size)

-- `0 == ifc->buftun_size`
abbrev pub wants_frames : List Bytes → List (Option Received) → List (Option Received)
wants_frames [] events = []
wants_frames (_ ∷ gifc) [] = []
wants_frames ([] ∷ gifc) (event ∷ events) = event ∷ wants_frames gifc events
wants_frames ((_ ∷ _) ∷ gifc) (_ ∷ events) = none ∷ wants_frames gifc events

-- One round, after a `select` that reported something.
unfoldable pub round : Ready → Driver → Turn Driver
unfolding read_command write_child write_tun start_command read_child handle_bufin read_network
round e d = do
  d1 ← read_command (asked (wants_command d) e.stdin) d
  d2 ← write_child e.child_stdin d1
  d3 ← write_tun e.tun_out d2
  d4 ← read_child (asked (wants_child d) e.child_stdout) (start_command d3)
  d5 ← handle_bufin (suc (length d4.bufin)) d4
  read_network (wants_frames d.gifc e.tun_in) d5

-- The loop, for as many rounds as there are.
unfoldable pub rounds : List Ready → Driver → Turn Driver
unfolding round
rounds [] d = next d
rounds (e ∷ es) d = round e d >>= rounds es

-- All addresses, one behind the other.
abbrev pub all_macs : List Bytes → Bytes
all_macs [] = []
all_macs (mac ∷ macs) = mac ++ all_macs macs

-- The first message of `main`: the addresses of the interfaces.
unfoldable pub mac_message : List Bytes → Bytes
mac_message macs =
    header_bytes (record { size = header_size + length macs * mac_addr_size; type = 0 })
    ++ all_macs macs

abbrev pub no_frames : List Bytes → List Bytes
no_frames [] = []
no_frames (mac ∷ macs) = [] ∷ no_frames macs

-- The state in which `main` starts `run`.
unfoldable pub start : List Bytes → Driver
unfolding mac_message
start macs = record {
  bufin = [];
  current_write = none;
  cmd_line = [];
  gifc = no_frames macs;
  current_read = none;
  from_user = [];
  to_child = mac_message macs;
  from_child = [];
  sent = [];
  printed = [];
}

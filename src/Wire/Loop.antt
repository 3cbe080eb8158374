-- ===== src/Wire/Loop.antt =====
-- The main loop of loop.c over the callbacks of a program.
use project_and_training_3_n.Base.{
  ℕ, zero, suc, ◌+◌, ◌-◌, ◌/◌, Bool, true, false, List, [], ◌∷◌, ◌++◌, Bytes, ntohs, ◌==◌, leb, ltb,
  if◌then◌else◌, length, take, drop, Result, ok, err, aborted, ◌>>=◌,
}
use project_and_training_3_n.Wire.{header_size, mac_addr_size, MacAddress}

-- `FrameHandler`, `ControlHandler` and `MacHandler`, over a program's state `S`.
pub record Handlers (S : Type 0) : Type 0 where
  pub frame : ℕ → Bytes → S → Result S
  pub control : Bytes → S → Result S
  pub mac : ℕ → MacAddress → S → Result S

-- The variables of `loop`: `buf` holds the first `off` bytes of the buffer.
pub record LoopState (S : Type 0) : Type 0 where
  pub buf : Bytes
  pub have_mac : Bool
  pub app : S

-- `sizeof (buf)`
abbrev pub buffer_size : ℕ
buffer_size = 65535

module _ {S : Type 0} (h : Handlers S) where
  -- The loop over the addresses of the first control message; `i` counts up from 0.
  unfoldable pub deliver_macs : ℕ → ℕ → Bytes → S → Result S
  deliver_macs zero i body s = ok s
  deliver_macs (suc n) i body s = do
    s' ← h.mac (i + 1) (take mac_addr_size body) s
    deliver_macs n (i + 1) (drop mac_addr_size body) s'

  -- The `switch` on the type of a complete message. The result is `have_mac` and the state.
  unfoldable pub dispatch : ℕ → Bytes → Bool → S → Result (Bool × S)
  dispatch type body have_mac s =
      if type == 0
      then if have_mac
        then (do s' ← h.control body s; ok (true, s'))
        else (do s' ← deliver_macs (length body / mac_addr_size) 0 body s; ok (true, s'))
      else (do s' ← h.frame type body s; ok (have_mac, s'))

  -- One message from the front of the buffer: dispatch it, and move the rest down.
  unfoldable pub consume : LoopState S → Result (LoopState S)
  consume st =
      let size = ntohs st.buf in
      let type = ntohs (drop 2 st.buf) in
      do
        (seen, s) ←
            dispatch type (take (size - header_size) (drop header_size st.buf)) st.have_mac st.app
        ok (record { buf = drop size st.buf; have_mac = seen; app = s })

  -- `while (off > sizeof (struct GLAB_MessageHeader))`. Each round takes four bytes or more.
  unfoldable pub drain : ℕ → LoopState S → Result (LoopState S)
  drain zero st = ok st
  drain (suc fuel) st =
      let size = ntohs st.buf in
      let round = consume st >>= drain fuel in
      if leb (length st.buf) header_size
      then ok st
      else if ltb (length st.buf) size
      then ok st
      else if ltb size header_size
      then err aborted
      else round

  -- What follows a `read` that returned the bytes `chunk`.
  unfoldable pub receive : LoopState S → Bytes → Result (LoopState S)
  receive st chunk =
      drain (length (st.buf ++ chunk))
        (record { buf = st.buf ++ chunk; have_mac = st.have_mac; app = st.app })

  -- The outer loop over what the `read`s return. No bytes are the end of the input.
  unfoldable pub run : List Bytes → LoopState S → Result (LoopState S)
  run [] st = ok st
  run ([] ∷ chunks) st = ok st
  run ((b ∷ bs) ∷ chunks) st = receive st (b ∷ bs) >>= run chunks

  unfoldable pub loop : List Bytes → S → Result (LoopState S)
  loop chunks s = run chunks (record { buf = []; have_mac = false; app = s })

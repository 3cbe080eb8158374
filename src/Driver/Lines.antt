-- ===== src/Driver/Lines.antt =====
-- The text of the terminal: what was passed on, and what stands in `cmd_line`.
use project_and_training_3_n.Base.{
  ℕ, ◌+◌, ◌-◌, ◌≡◌, ap, ◌∙◌, Option, none, some, [], ◌++◌, Bytes, ◌==◌, if◌then◌else◌, length, drop,
  drop_append, append_assoc, arith,
}
use project_and_training_3_n.Wire.{header_size}
use project_and_training_3_n.Wire.Delivery.{Message}
use project_and_training_3_n.Driver.{command, interface, Reading, Driver}
use project_and_training_3_n.Driver.Round.{finish_read}

-- What a message has of the text.
abbrev pub typed_text : Message → Bytes
typed_text m = if m.type == 0 then m.body else []

-- `more` is the part of `cmd_line` behind the line that is being passed on, if one is.
pub data Place (cmd_line more : Bytes) : Option Reading → Type 0 where
  free : cmd_line ≡ more → Place cmd_line more none
  frame_job :
      {r : Reading} (i : ℕ) → r.from ≡ interface i → cmd_line ≡ more → Place cmd_line more (some r)
  line_job :
      {r : Reading} (line : Bytes)
      → r.from ≡ command
      → cmd_line ≡ line ++ more
      → header_size + length line ≡ r.off + length r.rest
      → Place cmd_line more (some r)

pub Place-append :
    (cmd_line more bytes : Bytes) (job : Option Reading)
    → Place cmd_line more job
    → Place (cmd_line ++ bytes) (more ++ bytes) job
Place-append cmd_line more bytes none (free e) = free (ap (λ (t : Bytes). t ++ bytes) e)
Place-append cmd_line more bytes (some r) (frame_job i from e) =
    frame_job i from (ap (λ (t : Bytes). t ++ bytes) e)
Place-append cmd_line more bytes (some r) (line_job line from e off) =
    line_job line from (ap (λ (t : Bytes). t ++ bytes) e ∙ append_assoc line more bytes) off

-- Some bytes of the job are written, and some are left.
pub Place-written :
    (cmd_line more : Bytes) (r : Reading) (n : ℕ) (rest : Bytes)
    → n + length rest ≡ length r.rest
    → Place cmd_line more (some r)
    → Place cmd_line more (some (record { from = r.from; off = r.off + n; rest = rest }))
Place-written cmd_line more r n rest sum (frame_job i from e) = frame_job i from e
Place-written cmd_line more r n rest sum (line_job line from e off) =
    line_job line from e (omega (arith, off, sum))

pub Place-none : (cmd_line more : Bytes) → Place cmd_line more none → cmd_line ≡ more
Place-none cmd_line more (free e) = e

-- The whole job is written.
pub Place-finish :
    (d : Driver) (more : Bytes) (r : Reading)
    → length r.rest ≡ 0
    → Place d.cmd_line more (some r)
    → Place (finish_read r.from r.off d).cmd_line more none
unfolding finish_read
Place-finish d more r all (frame_job i from e) = rw from (free e)
Place-finish d more r all (line_job line from e off) =
    let sum : length line ≡ r.off - header_size = omega (arith, off, all) in
    rw from (free (ap (drop (r.off - header_size)) e ∙ drop_append line more _ sum))

-- ===== src/Driver/Parts.antt =====
-- What every part of the loop keeps, the rounds keep.
use project_and_training_3_n.Base.{suc, ℕ, Option, List, [], ◌∷◌, Bytes, length, All}
use project_and_training_3_n.Driver.{Driver, Received, Ready, Turn}
use project_and_training_3_n.Driver.After.{After, anything-After, next-After, bind-After}
use project_and_training_3_n.Driver.Round.{
  ◌>>=◌, asked, read_command, write_child, write_tun, start_command, read_child, handle_bufin,
  read_network, wants_frames, wants_command, wants_child, round, rounds,
}

-- `Heard` is what is known of the events of a round.
pub record IsKept (Heard : List (Option Received) → Type 0) (P : Driver → Type 0) : Type 0 where
  pub commands : (event : Option Bytes) (d : Driver) → P d → After P (read_command event d)
  pub jobs : (event : Option ℕ) (d : Driver) → P d → After P (write_child event d)
  pub frames : (event : Option ℕ) (d : Driver) → P d → After P (write_tun event d)
  pub starts : (d : Driver) → P d → P (start_command d)
  pub input : (event : Option Bytes) (d : Driver) → P d → After P (read_child event d)
  pub messages : (fuel : ℕ) (d : Driver) → P d → After P (handle_bufin fuel d)
  pub network :
      (events : List (Option Received)) (d0 d : Driver)
      → Heard events
      → P d
      → After P (read_network (wants_frames d0.gifc events) d)

-- The parts of a round behind the first, the second, and so on.
abbrev pub from_input : Driver → Ready → Driver → Turn Driver
from_input d e d4 =
    handle_bufin (suc (length d4.bufin)) d4 >>= read_network (wants_frames d.gifc e.tun_in)

abbrev from_frames : Driver → Ready → Driver → Turn Driver
from_frames d e d3 =
    read_child (asked (wants_child d) e.child_stdout) (start_command d3) >>= from_input d e

abbrev from_jobs : Driver → Ready → Driver → Turn Driver
from_jobs d e d2 = write_tun e.tun_out d2 >>= from_frames d e

abbrev from_commands : Driver → Ready → Driver → Turn Driver
from_commands d e d1 = write_child e.child_stdin d1 >>= from_jobs d e

-- What the handling of the messages and the network's part establish, holds after a round.
pub round-last :
    (Q : Driver → Type 0) (e : Ready) (d : Driver)
    → ((d4 : Driver) → After Q (from_input d e d4))
    → After Q (round e d)
unfolding round
round-last Q e d k =
    let any : Driver → Type 0 = λ _. Unit in
    let commands = read_command (asked (wants_command d) e.stdin) d in
    bind-After any Q commands (from_commands d e) (anything-After commands) (λ d1 _.
      let jobs = write_child e.child_stdin d1 in
      bind-After any Q jobs (from_jobs d e) (anything-After jobs) (λ d2 _.
        let frames = write_tun e.tun_out d2 in
        bind-After any Q frames (from_frames d e) (anything-After frames) (λ d3 _.
          let input = read_child (asked (wants_child d) e.child_stdout) (start_command d3) in
          bind-After any Q input (from_input d e) (anything-After input) (λ d4 _. k d4))))

module _ (Heard : List (Option Received) → Type 0) (P : Driver → Type 0)
    (kept : IsKept Heard P) where
  pub round-After : (e : Ready) (d : Driver) → Heard e.tun_in → P d → After P (round e d)
  unfolding round
  round-After e d heard p =
      bind-After P P (read_command (asked (wants_command d) e.stdin) d) (from_commands d e)
        (kept.commands (asked (wants_command d) e.stdin) d p)
        (λ d1 p1.
          bind-After P P (write_child e.child_stdin d1) (from_jobs d e)
            (kept.jobs e.child_stdin d1 p1)
            (λ d2 p2.
              bind-After P P (write_tun e.tun_out d2) (from_frames d e)
                (kept.frames e.tun_out d2 p2)
                (λ d3 p3.
                  bind-After P P
                    (read_child (asked (wants_child d) e.child_stdout) (start_command d3))
                    (from_input d e)
                    (kept.input (asked (wants_child d) e.child_stdout) (start_command d3)
                      (kept.starts d3 p3))
                    (λ d4 p4.
                      bind-After P P (handle_bufin (suc (length d4.bufin)) d4)
                        (read_network (wants_frames d.gifc e.tun_in))
                        (kept.messages (suc (length d4.bufin)) d4 p4)
                        (λ d5 p5. kept.network e.tun_in d d5 heard p5)))))

  pub rounds-After :
      (es : List Ready) (d : Driver) → All (λ e. Heard e.tun_in) es → P d → After P (rounds es d)
  unfolding rounds
  rounds-After [] d heard p = next-After P d p
  rounds-After (e ∷ es) d heard p =
      bind-After P P (round e d) (rounds es) (round-After e d heard.0 p)
        (λ d' p'. rounds-After es d' heard.1 p')

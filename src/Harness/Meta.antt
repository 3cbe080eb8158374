-- ===== src/Harness/Meta.antt =====
-- `meta` of harness.c: it starts the program under test, gives it addresses and runs the commands.
use mathlib.Core.List.{flatten, map}
use project_and_training_3_n.Base.{
  ℕ, ◌+◌, ◌*◌, List, ◌++◌, Bytes, bit_and, ◌==◌, if◌then◌else◌, length,
}
use project_and_training_3_n.Wire.{header_size, mac_addr_size, header_bytes, MacAddress}
use project_and_training_3_n.Harness.Receive.{run}

-- `ifcs`, each byte from what a call of `random ()` returned; this avoids multicast.
unfoldable pub random_macs : List (List ℕ) → List MacAddress
random_macs draws = map (map (λ draw. bit_and 0xFE draw)) draws

-- The primary control message, as it is written. Its size goes through `htons`.
unfoldable pub control_message : List MacAddress → Bytes
control_message ifcs =
    header_bytes (record { size = header_size + length ifcs * mac_addr_size; type = 0 })
    ++ flatten ifcs

-- How far the parent gets with the pipes and the child process.
pub data Launch : Type 0 where
  pipe_failed fork_failed launched : Launch

-- The returned code. `written` is what `write` returns for the control message; the commands start
-- in the state that `begin` gives for the addresses and for what the child has been sent.
unfoldable pub meta :
    {S : Type 0} → List (S → ℕ × S) → Launch → ℕ → List (List ℕ) → (List MacAddress → Bytes → S) → ℕ
unfolding random_macs control_message run
meta cmd launch written draws begin =
    let ifcs = random_macs draws in
    elim launch [
      | pipe_failed ↦ 1
      | fork_failed ↦ 1
      | launched ↦
          if header_size + length ifcs * mac_addr_size == written
          then (run cmd (begin ifcs (control_message ifcs))).0
          else 4
    ]

-- ===== src/Harness.antt =====
-- harness.c: what the test programs share. This file has its state and what they send.
pub mod Expect
pub mod Receive
pub mod Masks
pub mod Stream
pub mod First
pub mod Refinement
pub mod Multicast
pub mod Masked
pub mod Flooding
pub mod Skipping
pub mod Silence
pub mod Meta
pub mod Sending
pub mod Passing
pub mod Addresses
pub mod Endless
mod Tests
use project_and_training_3_n.Base.{
  ℕ, suc, ◌+◌, ◌-◌, ◌≡◌, ◌||◌, List, [], ◌∷◌, ◌++◌, Bytes, ◌==◌, ltb, if◌then◌else◌, length,
  get_elem?, none, some, drop, Result, ok, err, aborted, out_of_bounds,
}
use project_and_training_3_n.Wire.{header_size, header_bytes, MacAddress}

-- How the child's output can be read: `select` says that nothing came in time, or fails, or `read`
-- returns some bytes, at most `n`.
pub data Wait : Type 0 where
  timeout failed : Wait
  readable : ℕ → Wait

-- `child_buf` is the first `child_buf_pos` bytes of the array and `behind` the others, left over
-- from messages before. `pipe` is what the child wrote and the harness has not read.
pub record Harness : Type 0 where
  pub child_buf : Bytes
  pub behind : Bytes
  pub pipe : Bytes

-- `sizeof (child_buf)`
abbrev pub child_buf_size : ℕ
child_buf_size = 65536

-- All bytes of the array.
abbrev pub memory : Harness → Bytes
memory h = h.child_buf ++ h.behind

-- What `tsend` writes to the child, in two calls of `write_all`.
unfoldable pub tsend : ℕ → Bytes → Result Bytes
tsend type msg =
    if ltb (65535 - header_size) (length msg)
    then err aborted
    else ok (header_bytes (record { size = header_size + length msg; type = type }) ++ msg)

-- `frame` with the address of interface `ifc_num` as its destination; `gifcs` are the addresses.
unfoldable pub set_dest_mac : List MacAddress → Bytes → ℕ → Result Bytes
set_dest_mac gifcs frame ifc_num =
    if ifc_num == 0 then err aborted else elim (get_elem? gifcs (ifc_num - 1)) [
      | none ↦ err aborted
      | some mac ↦ if ltb (length frame) 14 then err out_of_bounds else ok (mac ++ drop 6 frame)
    ]

-- ===== src/Driver.antt =====
-- network-driver.c: the loop that passes messages between a program, its child, and the interfaces
-- and the terminal. This file has its state and what one round of the loop learns from the kernel.
pub mod Round
pub mod After
pub mod Parts
pub mod Parcels
pub mod Waiting
pub mod Lines
pub mod Begun
pub mod Child
pub mod Sending
pub mod Outgoing
pub mod Network
pub mod Session
pub mod Fuel
mod Tests
use project_and_training_3_n.Base.{ℕ, ◌+◌, Option, none, List, [], Bytes, replicate}
use project_and_training_3_n.Wire.{header_size}

-- `MAX_SIZE`
abbrev pub max_size : ℕ
max_size = 65536 + header_size

-- Where `current_read` points: to `cmd_line` or into `gifc`.
pub data Source : Type 0 where
  command : Source
  interface : ℕ → Source

-- `current_read` with its `buftun_off`: `off` bytes of the message are written, `rest` are not, and
-- there are `buftun_end` of those.
pub record Reading : Type 0 where
  pub from : Source
  pub off : ℕ
  pub rest : Bytes

-- `current_write`, `bufin_write_off` and `bufin_write_left`. The interface is an index into `gifc`.
pub record Writing : Type 0 where
  pub to : ℕ
  pub off : ℕ
  pub left : ℕ

-- The variables of `run`, and what went through it so far. `bufin` holds `bufin_rpos` bytes,
-- `cmd_line` those behind the room for the header, and `gifc` the `buftun` of each interface, no
-- bytes if its `buftun_size` is 0.
pub record Driver : Type 0 where
  pub bufin : Bytes
  pub current_write : Option Writing
  pub cmd_line : Bytes
  pub gifc : List Bytes
  pub current_read : Option Reading
  -- All bytes that were read from the terminal, written to the child and read from the child.
  pub from_user : Bytes
  pub to_child : Bytes
  pub from_child : Bytes
  -- Each `sendto` with its interface, and the text on the terminal.
  pub sent : List (ℕ × Bytes)
  pub printed : Bytes

-- What `recvmsg` returns: an error, a frame of another interface, or a frame with the VLAN tags (the
-- TPID and the TCI) of its auxiliary data. The end of the input is a frame of no bytes.
pub data Received : Type 0 where
  failed elsewhere : Received
  frame : Bytes → List (ℕ × ℕ) → Received

-- The descriptors that `select` reports, with what the call on each then returns. Of a `read`, no
-- bytes stand for the end of the input or an error; of a `write` or a `sendto`, 0 stands for every
-- return that is not positive.
pub record Ready : Type 0 where
  pub stdin : Option Bytes
  pub child_stdin : Option ℕ
  pub tun_out : Option ℕ
  pub child_stdout : Option Bytes
  pub tun_in : List (Option Received)

-- How a part of `run` ends: it goes on, it returns, it has not ended within the fuel, or it prints a
-- text that nothing limits, where the model stops and the code goes on.
pub data Turn (A : Type 0) : Type 0 where
  next : A → Turn A
  returned running unbounded : Turn A

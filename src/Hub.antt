-- ===== src/Hub.antt =====
-- hub.c: a program that takes frames, addresses and commands, but whose processing of a frame has no
-- body. switch.c has the same text with another function of that kind.
mod Tests
use project_and_training_3_n.Base.{
  ℕ, zero, suc, ◌+◌, none, some, List, [], ◌∷◌, ◌++◌, Bytes, ltb, if◌then◌else◌, length, get_elem?,
  set, take, replicate, Result, ok, err, aborted, out_of_bounds, ◌>>=◌,
}
use project_and_training_3_n.Wire.{header_size, mac_addr_size, header_bytes, MacAddress, print}
use project_and_training_3_n.Wire.Loop.{Handlers}
use project_and_training_3_n.Router.Command.{command_text}

-- `struct Interface`
pub record Interface : Type 0 where
  pub mac : MacAddress
  pub ifc_num : ℕ

-- What `forward_to` writes; nothing calls it.
unfoldable pub forward_to : Interface → Bytes → Bytes
forward_to dst frame =
    header_bytes (record { size = length frame + header_size; type = dst.ifc_num }) ++ frame

-- `gifc[n - 1]`
unfoldable pub port : List Interface → ℕ → Result Interface
port gifc zero = err out_of_bounds
port gifc (suc i) = elim (get_elem? gifc i) [ some ifc ↦ ok ifc | none ↦ err out_of_bounds ]

-- What it writes: its body is empty.
unfoldable pub fwd_frame : Interface → Bytes → Bytes
fwd_frame src_ifc frame = []

-- The interfaces are `gifc`, `num_ifc` of them; the result is what is written.
unfoldable pub handle_frame : ℕ → Bytes → List Interface → Result Bytes
unfolding port fwd_frame
handle_frame interface frame gifc =
    if ltb (length gifc) interface
    then err aborted
    else (do src ← port gifc interface; ok (fwd_frame src frame))

-- "Received command `"
abbrev pub command_is : Bytes
command_is =
    b'R' ∷ b'e' ∷ b'c' ∷ b'e' ∷ b'i' ∷ b'v' ∷ b'e' ∷ b'd' ∷ b' ' ∷ b'c' ∷ b'o' ∷ b'm' ∷ b'm' ∷ b'a'
    ∷ b'n' ∷ b'd' ∷ b' ' ∷ b'`' ∷ []

-- "' (ignored)\n"
abbrev pub ignored : Bytes
ignored = 39 ∷ b' ' ∷ b'(' ∷ b'i' ∷ b'g' ∷ b'n' ∷ b'o' ∷ b'r' ∷ b'e' ∷ b'd' ∷ b')' ∷ b'\n' ∷ []

-- What it writes. `cmd` is read as a C string, without its last byte.
unfoldable pub handle_control : Bytes → Result Bytes
unfolding command_text
handle_control cmd = do text ← command_text cmd; ok (print (command_is ++ (text ++ ignored)))

-- The store of `mac` in the interface number `ifc_num`.
unfoldable pub set_mac : List Interface → ℕ → MacAddress → Result (List Interface)
set_mac gifc zero mac = err out_of_bounds
set_mac gifc (suc i) mac = elim (get_elem? gifc i) [
  | some ifc ↦ ok (set gifc i (record ifc { mac = mac }))
  | none ↦ err out_of_bounds
]

unfoldable pub handle_mac : ℕ → MacAddress → List Interface → Result (List Interface)
unfolding set_mac
handle_mac ifc_num mac gifc =
    if ltb (length gifc) ifc_num then err aborted else set_mac gifc ifc_num mac

-- The interfaces that `main` sets up, `n` of them from number `i` on.
unfoldable pub start : ℕ → ℕ → List Interface
start i zero = []
start i (suc n) = record { mac = replicate mac_addr_size 0; ifc_num = i } ∷ start (i + 1) n

-- A program between two callbacks, and all that it wrote.
pub record Running : Type 0 where
  pub gifc : List Interface
  pub out : Bytes

abbrev pub wrote : Running → Bytes → Running
wrote r bytes = record { gifc = r.gifc; out = r.out ++ bytes }

unfoldable pub handlers : Handlers Running
unfolding handle_frame handle_control handle_mac
handlers = record {
  frame = λ interface frame r. do
    bytes ← handle_frame interface frame r.gifc
    ok (wrote r bytes);
  control = λ cmd r. do
    bytes ← handle_control cmd
    ok (wrote r bytes);
  mac = λ ifc_num mac r. do
    gifc ← handle_mac ifc_num mac r.gifc
    ok (record r { gifc = gifc });
}

-- ===== src/Wire.antt =====
-- glab.h, print.c and loop.c: the protocol between a program and the network driver.
-- A message is a header of four bytes, its size (the header's included) and its type in network
-- order, and a body. Type 0 is control, any other the number of an interface.
pub mod Write
pub mod Loop
pub mod Stream
pub mod Delivery
pub mod Safety
pub mod Commands
mod Tests
use project_and_training_3_n.Base.{ℕ, ◌+◌, List, [], ◌∷◌, ◌++◌, Bytes, htons, length}

-- `sizeof (struct GLAB_MessageHeader)`
abbrev pub header_size : ℕ
header_size = 4

-- `MAC_ADDR_SIZE`
abbrev pub mac_addr_size : ℕ
mac_addr_size = 6

-- `struct MacAddress`: its bytes.
abbrev pub MacAddress : Type 0
MacAddress = Bytes

-- `struct GLAB_MessageHeader`, the fields as the host reads them.
pub record GlabMessageHeader : Type 0 where
  pub size : ℕ
  pub type : ℕ

-- The header's bytes, after `htons` of both fields.
abbrev pub header_bytes : GlabMessageHeader → Bytes
header_bytes hdr = htons hdr.size ++ htons hdr.type

-- What `print` passes to `write_all` for the formatted text `str`.
unfoldable pub print : Bytes → Bytes
print str = header_bytes (record { size = length str + header_size; type = 0 }) ++ str

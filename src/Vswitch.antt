-- ===== src/Vswitch.antt =====
-- vswitch.c: a switch with VLANs (IEEE 802.1Q). This file has its constants and its state.
pub mod Table
pub mod Learning
pub mod Forward
pub mod Tagging
pub mod Frame
pub mod Invariant
pub mod Isolation
pub mod Unicast
pub mod Args
pub mod ArgsLaws
mod Tests
use project_and_training_3_n.Base.{ℕ, Bool, Option, List, Bytes}
use project_and_training_3_n.Wire.{MacAddress}

-- `MAX_VLANS`
abbrev pub max_vlans : ℕ
max_vlans = 4094

-- `DEFAULT_VLAN`
abbrev pub default_vlan : ℕ
default_vlan = 0

-- `ETH_802_1Q_TAG`
abbrev pub eth_802_1q_tag : ℕ
eth_802_1q_tag = 0x8100

-- `MAC_TABLE_SIZE`
abbrev pub mac_table_size : ℕ
mac_table_size = 1024

-- `MAC_AGING_TIME`
abbrev pub mac_aging_time : ℕ
mac_aging_time = 300

-- `struct Interface`. `tagged_vlans` holds the entries before the terminator `NO_VLAN`, and `none`
-- stands for `NO_VLAN` in `untagged_vlan`.
pub record Interface : Type 0 where
  pub mac : MacAddress
  pub ifc_num : ℕ
  pub ifc_name : Bytes
  pub tagged_vlans : List ℕ
  pub untagged_vlan : Option ℕ

-- `struct MacTableEntry`
pub record MacTableEntry : Type 0 where
  pub mac : MacAddress
  pub ifc_num : ℕ
  pub vlan_id : ℕ
  pub last_seen : ℕ
  pub valid : Bool

-- `mac_table`, by its index. `mac_hash-lt` shows that no index is out of range.
abbrev pub MacTable : Type 0
MacTable = ℕ → MacTableEntry

-- The global variables. `num_ifc` is the length of `gifc`.
pub record Vswitch : Type 0 where
  pub gifc : List Interface
  pub mac_table : MacTable

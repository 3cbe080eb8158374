-- ===== src/Router.antt =====
-- router.c: a router for IPv4 with a table of routes and a cache of addresses. This file has its
-- constants and its state. An address (`struct in_addr`) is the number that `ntohl` reads.
pub mod ArpCache
pub mod Routes
pub mod Frame
pub mod Args
pub mod Command
pub mod Cache
pub mod Table
pub mod Sending
pub mod ArpFrame
pub mod Arp
pub mod Invariant
pub mod Effect
pub mod Words
pub mod Running
mod Tests
use project_and_training_3_n.Base.{ℕ, Bool, List, Bytes}
use project_and_training_3_n.Wire.{MacAddress}

-- `ETH_P_IPV4`, `ETH_P_ARP`
abbrev pub eth_p_ipv4 : ℕ
eth_p_ipv4 = 0x0800

abbrev pub eth_p_arp : ℕ
eth_p_arp = 0x0806

-- `ROUTE_TABLE_SIZE`, `ARP_CACHE_SIZE`
abbrev pub route_table_size : ℕ
route_table_size = 256

abbrev pub arp_cache_size : ℕ
arp_cache_size = 256

-- `struct in_addr`
abbrev pub InAddr : Type 0
InAddr = ℕ

-- `struct Interface`
pub record Interface : Type 0 where
  pub mac : MacAddress
  pub ip : InAddr
  pub netmask : InAddr
  pub name : Bytes
  pub ifc_num : ℕ
  pub mtu : ℕ

-- `struct RouteEntry`. The pointer `ifc` is an index into `gifc`.
pub record RouteEntry : Type 0 where
  pub target_network : InAddr
  pub target_netmask : InAddr
  pub next_hop : InAddr
  pub ifc : ℕ
  pub valid : Bool

-- `struct ArpCacheEntry`
pub record ArpCacheEntry : Type 0 where
  pub ip : InAddr
  pub mac : MacAddress
  pub valid : Bool

-- The global variables. `num_ifc` is the length of `gifc`.
pub record Router : Type 0 where
  pub gifc : List Interface
  pub route_table : List RouteEntry
  pub arp_cache : List ArpCacheEntry

-- ===== src/Arp.antt =====
-- arp.c: a program that answers ARP requests and keeps a cache of addresses. This file has its
-- state and its cache. Its `struct Interface` and its `struct ArpHeaderEthernetIPv4` are those of
-- router.c.
pub mod Frame
pub mod Args
pub mod Cache
pub mod Answers
pub mod Control
mod Tests
use project_and_training_3_n.Base.{
  ℕ, ◌%◌, Bool, true, false, ◌&&◌, Option, none, some, List, ◌==◌, if◌then◌else◌,
}
use project_and_training_3_n.Wire.{MacAddress}
use project_and_training_3_n.Router.{InAddr, Interface, ArpCacheEntry}

-- `ARP_CACHE_SIZE`
abbrev pub arp_cache_size : ℕ
arp_cache_size = 256

-- `arp_cache`, by its index. `hash_ip-lt` shows that no index is out of range.
abbrev pub ArpCache : Type 0
ArpCache = ℕ → ArpCacheEntry

-- The global variables. `num_ifc` is the length of `gifc`.
pub record ArpTool : Type 0 where
  pub gifc : List Interface
  pub arp_cache : ArpCache

unfoldable pub hash_ip : InAddr → ℕ
hash_ip ip = ip % arp_cache_size

-- The three stores of `add_to_arp_cache`.
unfoldable pub add_to_arp_cache : ArpCache → InAddr → MacAddress → ArpCache
unfolding hash_ip
add_to_arp_cache cache ip mac i =
    if i == hash_ip ip then record { ip = ip; mac = mac; valid = true } else cache i

-- The entry of `ip` itself, valid.
unfoldable pub is_entry : ArpCacheEntry → InAddr → Bool
is_entry e ip = e.valid && e.ip == ip

unfoldable pub remove_from_arp_cache : ArpCache → InAddr → ArpCache
unfolding hash_ip is_entry
remove_from_arp_cache cache ip i =
    if i == hash_ip ip && is_entry (cache (hash_ip ip)) ip
    then record (cache i) { valid = false }
    else cache i

unfoldable pub lookup_arp_cache : ArpCache → InAddr → Option MacAddress
unfolding hash_ip is_entry
lookup_arp_cache cache ip = let e = cache (hash_ip ip) in if is_entry e ip then some e.mac else none

-- ===== src/Router/ArpCache.antt =====
-- The ARP cache of router.c, scanned from its first entry on.
use project_and_training_3_n.Base.{
  true, not, ◌&&◌, Option, none, some, List, [], ◌∷◌, ◌==◌, if◌then◌else◌,
}
use project_and_training_3_n.Wire.{MacAddress}
use project_and_training_3_n.Router.{InAddr, ArpCacheEntry}

unfoldable pub lookup_arp_cache : List ArpCacheEntry → InAddr → Option MacAddress
lookup_arp_cache [] ip = none
lookup_arp_cache (e ∷ cache) ip =
    let rest = lookup_arp_cache cache ip in if e.valid && e.ip == ip then some e.mac else rest

abbrev cons_some : ArpCacheEntry → Option (List ArpCacheEntry) → Option (List ArpCacheEntry)
cons_some e none = none
cons_some e (some cache) = some (e ∷ cache)

-- The first loop of `add_to_arp_cache`: an entry of that address gets the new `mac`.
unfoldable pub update_entry : List ArpCacheEntry → InAddr → MacAddress → Option (List ArpCacheEntry)
update_entry [] ip mac = none
update_entry (e ∷ cache) ip mac =
    let rest = cons_some e (update_entry cache ip mac) in
    if e.valid && e.ip == ip then some (record e { mac = mac } ∷ cache) else rest

-- The second loop: the first entry that is not valid is used.
unfoldable pub fill_entry : List ArpCacheEntry → InAddr → MacAddress → Option (List ArpCacheEntry)
fill_entry [] ip mac = none
fill_entry (e ∷ cache) ip mac =
    let rest = cons_some e (fill_entry cache ip mac) in
    if not e.valid then some (record { ip = ip; mac = mac; valid = true } ∷ cache) else rest

-- The cache is full: its first entry is replaced.
unfoldable pub replace_first : List ArpCacheEntry → InAddr → MacAddress → List ArpCacheEntry
replace_first [] ip mac = []
replace_first (e ∷ cache) ip mac = record { ip = ip; mac = mac; valid = true } ∷ cache

unfoldable pub add_to_arp_cache : List ArpCacheEntry → InAddr → MacAddress → List ArpCacheEntry
add_to_arp_cache cache ip mac = elim (update_entry cache ip mac) [
  | some updated ↦ updated
  | none ↦ elim (fill_entry cache ip mac) [
    | some filled ↦ filled
    | none ↦ replace_first cache ip mac
  ]
]

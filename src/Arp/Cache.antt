-- ===== src/Arp/Cache.antt =====
-- What the cache of arp.c answers after an update.
use project_and_training_3_n.Base.{◌%◌, ◌<◌, ◌≡◌, none, some, ◌==◌, if◌then◌else◌, arith}
use project_and_training_3_n.Wire.{MacAddress}
use project_and_training_3_n.Router.{InAddr}
use project_and_training_3_n.Arp.{
  ArpCache, arp_cache_size, hash_ip, add_to_arp_cache, is_entry, remove_from_arp_cache,
  lookup_arp_cache,
}

-- Every access to `arp_cache` is within its bounds.
pub hash_ip-lt : (ip : InAddr) → hash_ip ip < arp_cache_size
unfolding hash_ip
hash_ip-lt ip = omega arith

-- After an address was added, its lookup finds the MAC address, that of another address with the
-- same last byte finds nothing, and that of any other address finds what it found before.
pub lookup_arp_cache-add :
    (cache : ArpCache) (ip j : InAddr) (mac : MacAddress)
    → lookup_arp_cache (add_to_arp_cache cache ip mac) j ≡ (
        if j == ip
        then some mac
        else if j % 256 == ip % 256
        then none
        else lookup_arp_cache cache j)
unfolding lookup_arp_cache add_to_arp_cache is_entry hash_ip
lookup_arp_cache-add cache ip j mac = ground arith

-- After an address was removed, its lookup finds nothing, and that of any other address finds what
-- it found before.
pub lookup_arp_cache-remove :
    (cache : ArpCache) (ip j : InAddr)
    → lookup_arp_cache (remove_from_arp_cache cache ip) j
      ≡ (if j == ip then none else lookup_arp_cache cache j)
unfolding lookup_arp_cache remove_from_arp_cache is_entry hash_ip
lookup_arp_cache-remove cache ip j = ground arith

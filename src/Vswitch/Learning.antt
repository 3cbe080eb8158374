-- ===== src/Vswitch/Learning.antt =====
-- What the learning table of vswitch.c remembers, and for how long.
use project_and_training_3_n.Base.{
  ℕ, ◌+◌, ◌-◌, ◌*◌, ◌%◌, ◌^◌, ◌≤◌, ◌<◌, ◌≡◌, ◌≢◌, ◌⊎◌, refl, true, false, none, some, [], ◌∷◌,
  equal, equal_iff, ltb, if◌then◌else◌, arith,
}
use project_and_training_3_n.Wire.{MacAddress}
use project_and_training_3_n.Vswitch.{MacTable, mac_table_size, mac_aging_time}
use project_and_training_3_n.Vswitch.Table.{
  hash_bytes, mac_hash, is_multicast_or_broadcast, learn_mac, lookup_mac,
}

-- Every access to `mac_table` is within its bounds.
pub mac_hash-lt : (mac : MacAddress) → mac_hash mac < mac_table_size
unfolding mac_hash
mac_hash-lt mac = omega arith

-- The sum of `b * 31 ^ i` over the bytes, with no wrap: the last byte counts once.
pub polynomial : ℕ → MacAddress → ℕ
polynomial acc [] = acc
polynomial acc (b ∷ bs) = polynomial (acc * 31 + b) bs

hash_bytes-polynomial :
    (bs : MacAddress) (a b : ℕ)
    → a % mac_table_size ≡ b % mac_table_size
    → hash_bytes a bs % mac_table_size ≡ polynomial b bs % mac_table_size
unfolding hash_bytes polynomial
hash_bytes-polynomial [] a b h = h
hash_bytes-polynomial (x ∷ bs) a b h =
    hash_bytes-polynomial bs ((a * 31 + x) % 2 ^ 32) (b * 31 + x) (omega arith)

-- The wrap of `unsigned int` does not show: the hash is the polynomial in the bytes modulo the size
-- of the table.
pub mac_hash-polynomial : (mac : MacAddress) → mac_hash mac ≡ polynomial 0 mac % mac_table_size
unfolding mac_hash
mac_hash-polynomial mac = hash_bytes-polynomial mac 0 0 refl

equal_refl : (a : MacAddress) → equal a a ≡ true
equal_refl a = (equal_iff a a).1 refl

-- Exactly what `lookup_mac` needs to find an interface.
pub record Knows (now : ℕ) (t : MacTable) (mac : MacAddress) (vlan_id ifc_num : ℕ) : Type 0 where
  pub valid : (t (mac_hash mac)).valid ≡ true
  pub same_mac : (t (mac_hash mac)).mac ≡ mac
  pub same_vlan : (t (mac_hash mac)).vlan_id ≡ vlan_id
  pub fresh : now - (t (mac_hash mac)).last_seen ≤ mac_aging_time
  pub interface : (t (mac_hash mac)).ifc_num ≡ ifc_num

pub lookup-Knows :
    (now : ℕ) (t : MacTable) (mac : MacAddress) (vlan_id : ℕ) {n : ℕ}
    → Knows now t mac vlan_id n
    → lookup_mac now t mac vlan_id ≡ (t, some n)
unfolding lookup_mac
lookup-Knows now t mac vlan_id k = ground (arith, equal_iff (t (mac_hash mac)).mac mac)

pub Knows-lookup :
    (now : ℕ) (t : MacTable) (mac : MacAddress) (vlan_id : ℕ) {n : ℕ}
    → (lookup_mac now t mac vlan_id).1 ≡ some n
    → Knows now t mac vlan_id n
unfolding lookup_mac
Knows-lookup now t mac vlan_id e = ground (arith, equal_iff (t (mac_hash mac)).mac mac)

-- A learned unicast address is found in its VLAN on its port until it is too old, and the newest
-- place counts: the lookup after `learn_mac` gives the port if at most 300 seconds went by, and
-- nothing later.
pub lookup-learn :
    (now later : ℕ) (t : MacTable) (mac : MacAddress) (ifc_num vlan_id : ℕ)
    → is_multicast_or_broadcast mac ≡ false
    → (lookup_mac later (learn_mac now t mac ifc_num vlan_id) mac vlan_id).1
      ≡ (if ltb mac_aging_time (later - now) then none else some ifc_num)
unfolding learn_mac lookup_mac
lookup-learn now later t mac ifc_num vlan_id u = ground (arith, equal_refl mac)

-- Learning a unicast address in one VLAN makes every lookup of another address with the
-- same hash fail, and of the same address in another VLAN too, whatever was learned before.
pub lookup-learn_evicted :
    (now later : ℕ) (t : MacTable) (mac mac' : MacAddress) (ifc_num vlan_id vlan_id' : ℕ)
    → is_multicast_or_broadcast mac ≡ false
    → mac_hash mac ≡ mac_hash mac'
    → (mac ≢ mac') ⊎ (vlan_id ≢ vlan_id')
    → (lookup_mac later (learn_mac now t mac ifc_num vlan_id) mac' vlan_id').1 ≡ none
unfolding learn_mac lookup_mac
lookup-learn_evicted now later t mac mac' ifc_num vlan_id vlan_id' u h d =
    ground (arith, equal_iff mac mac')

-- Learning leaves every lookup of an address with another hash as it was.
pub lookup-learn_other :
    (now later : ℕ) (t : MacTable) (mac mac' : MacAddress) (ifc_num vlan_id vlan_id' : ℕ)
    → mac_hash mac ≢ mac_hash mac'
    → (lookup_mac later (learn_mac now t mac ifc_num vlan_id) mac' vlan_id').1
      ≡ (lookup_mac later t mac' vlan_id').1
unfolding learn_mac lookup_mac
lookup-learn_other now later t mac mac' ifc_num vlan_id vlan_id' h = ground arith

-- A lookup that fails for the age of the entry forgets it for good: no later lookup of any
-- address that hashes there, at any time, finds anything.
pub lookup_aged :
    (now later : ℕ) (t : MacTable) (mac mac' : MacAddress) (vlan_id vlan_id' : ℕ)
    → (t (mac_hash mac)).mac ≡ mac
    → (t (mac_hash mac)).vlan_id ≡ vlan_id
    → mac_aging_time < now - (t (mac_hash mac)).last_seen
    → mac_hash mac' ≡ mac_hash mac
    → (lookup_mac later (lookup_mac now t mac vlan_id).0 mac' vlan_id').1 ≡ none
unfolding lookup_mac
lookup_aged now later t mac mac' vlan_id vlan_id' m v old same =
    ground (arith, equal_iff (t (mac_hash mac)).mac mac)

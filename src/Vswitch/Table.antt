-- ===== src/Vswitch/Table.antt =====
-- The MAC learning table of vswitch.c.
use project_and_training_3_n.Base.{
  ℕ, ◌+◌, ◌-◌, ◌*◌, ◌%◌, ◌^◌, Bool, true, false, not, Option, none, some, [], ◌∷◌, bit_and, equal,
  ◌==◌, ltb, if◌then◌else◌, get_or,
}
use project_and_training_3_n.Wire.{MacAddress}
use project_and_training_3_n.Vswitch.{MacTableEntry, MacTable, mac_table_size, mac_aging_time}

-- The loop of `mac_hash` over the bytes left, in `unsigned int` arithmetic.
unfoldable pub hash_bytes : ℕ → MacAddress → ℕ
hash_bytes hash [] = hash
hash_bytes hash (b ∷ bs) = hash_bytes ((hash * 31 + b) % 2 ^ 32) bs

unfoldable pub mac_hash : MacAddress → ℕ
unfolding hash_bytes
mac_hash mac = hash_bytes 0 mac % mac_table_size

unfoldable pub is_multicast_or_broadcast : MacAddress → Bool
is_multicast_or_broadcast mac = not (bit_and (get_or mac 0 0) 0x01 == 0)

-- `mac_table[idx] = e`
unfoldable pub store : MacTable → ℕ → MacTableEntry → MacTable
store t idx e i = if i == idx then e else t i

-- `now` is what `time (NULL)` returns.
unfoldable pub learn_mac : ℕ → MacTable → MacAddress → ℕ → ℕ → MacTable
unfolding store
learn_mac now t mac ifc_num vlan_id =
    if is_multicast_or_broadcast mac
    then t
    else store t (mac_hash mac)
        (record { mac = mac; ifc_num = ifc_num; vlan_id = vlan_id; last_seen = now; valid = true })

-- The table after the call, and the interface if one was found. The difference of two times that
-- run backwards is negative, here 0: not too old in both.
unfoldable pub lookup_mac : ℕ → MacTable → MacAddress → ℕ → MacTable × Option ℕ
unfolding store
lookup_mac now t mac vlan_id =
    let idx = mac_hash mac in
    let e = t idx in
    if not e.valid
    then (t, none)
    else if not (equal e.mac mac)
    then (t, none)
    else if not (e.vlan_id == vlan_id)
    then (t, none)
    else if ltb mac_aging_time (now - e.last_seen)
    then (store t idx (record e { valid = false }), none)
    else (t, some e.ifc_num)

-- ===== src/Router/Cache.antt =====
-- What the ARP cache of router.c answers after an update.
use project_and_training_3_n.Base.{
  ◌<◌, ◌≡◌, ◌≢◌, ◌⊎◌, inl, inr, refl, sym, ap, ◌∙◌, subst, true, none, some, List, [], ◌∷◌,
  Option-cases, length, All, arith,
}
use project_and_training_3_n.Wire.{MacAddress}
use project_and_training_3_n.Router.{InAddr, ArpCacheEntry}
use project_and_training_3_n.Router.ArpCache.{
  lookup_arp_cache, update_entry, fill_entry, replace_first, add_to_arp_cache,
}

-- The list keeps its length, answers for the address with `mac`, and for any other as before.
pub record Sets (cache out : List ArpCacheEntry) (ip : InAddr) (mac : MacAddress) : Type 0 where
  pub same_length : length out ≡ length cache
  pub self : lookup_arp_cache out ip ≡ some mac
  pub others : (j : InAddr) → j ≢ ip → lookup_arp_cache out j ≡ lookup_arp_cache cache j

-- No entry is free.
abbrev pub IsFull : List ArpCacheEntry → Type 0
IsFull = All (λ e. e.valid ≡ true)

update_entry-Sets :
    (cache : List ArpCacheEntry) (ip : InAddr) (mac : MacAddress) {out : List ArpCacheEntry}
    → update_entry cache ip mac ≡ some out
    → Sets cache out ip mac
unfolding update_entry lookup_arp_cache
update_entry-Sets [] ip mac e = absurd (cc e)
update_entry-Sets (x ∷ cache) ip mac {out} e = elim (Option-cases (update_entry cache ip mac)) [
  | inl missing ↦ record { same_length = ground arith; self = ground arith; others = ground arith }
  | inr (c, found) ↦
      let s = update_entry-Sets cache ip mac found in
      record {
        same_length = ground (arith, s.same_length);
        self = ground (arith, s.self);
        others = ground (arith, s.others);
      }
]

-- Without an entry to update, no lookup of that address finds anything.
update_entry-none :
    (cache : List ArpCacheEntry) (ip : InAddr) (mac : MacAddress)
    → update_entry cache ip mac ≡ none
    → lookup_arp_cache cache ip ≡ none
unfolding update_entry lookup_arp_cache
update_entry-none [] ip mac e = refl
update_entry-none (x ∷ cache) ip mac e = elim (Option-cases (update_entry cache ip mac)) [
  | inl missing ↦ ground (arith, update_entry-none cache ip mac missing)
  | inr (c, found) ↦ absurd (ground arith)
]

fill_entry-Sets :
    (cache : List ArpCacheEntry) (ip : InAddr) (mac : MacAddress) {out : List ArpCacheEntry}
    → lookup_arp_cache cache ip ≡ none
    → fill_entry cache ip mac ≡ some out
    → Sets cache out ip mac
unfolding fill_entry lookup_arp_cache
fill_entry-Sets [] ip mac absent e = absurd (cc e)
fill_entry-Sets (x ∷ cache) ip mac {out} absent e = elim (Option-cases (fill_entry cache ip mac)) [
  | inl missing ↦ record { same_length = ground arith; self = ground arith; others = ground arith }
  | inr (c, found) ↦
      let s = fill_entry-Sets cache ip mac (ground arith) found in
      record {
        same_length = ground (arith, s.same_length);
        self = ground (arith, s.self);
        others = ground (arith, s.others);
      }
]

fill_entry-none :
    (cache : List ArpCacheEntry) (ip : InAddr) (mac : MacAddress)
    → fill_entry cache ip mac ≡ none
    → IsFull cache
unfolding fill_entry
fill_entry-none [] ip mac e = tt
fill_entry-none (x ∷ cache) ip mac e = elim (Option-cases (fill_entry cache ip mac)) [
  | inl missing ↦ (ground arith, fill_entry-none cache ip mac missing)
  | inr (c, found) ↦ absurd (ground arith)
]

-- Without a free entry, nothing is filled.
fill_entry-IsFull :
    (cache : List ArpCacheEntry) (ip : InAddr) (mac : MacAddress)
    → IsFull cache
    → fill_entry cache ip mac ≡ none
unfolding fill_entry
fill_entry-IsFull [] ip mac f = refl
fill_entry-IsFull (x ∷ cache) ip mac f = ground (arith, f.0, fill_entry-IsFull cache ip mac f.1)

lookup-replace_first :
    (cache : List ArpCacheEntry) (ip : InAddr) (mac : MacAddress)
    → 0 < length cache
    → lookup_arp_cache (replace_first cache ip mac) ip ≡ some mac
unfolding replace_first lookup_arp_cache
lookup-replace_first [] ip mac h = absurd (omega arith)
lookup-replace_first (e ∷ cache) ip mac h = ground arith

lookup-replace_first_other :
    (e : ArpCacheEntry) (cache : List ArpCacheEntry) (ip j : InAddr) (mac : MacAddress)
    → j ≢ ip
    → lookup_arp_cache (replace_first (e ∷ cache) ip mac) j ≡ lookup_arp_cache cache j
unfolding replace_first lookup_arp_cache
lookup-replace_first_other e cache ip j mac d = ground arith

length-replace_first :
    (cache : List ArpCacheEntry) (ip : InAddr) (mac : MacAddress)
    → length (replace_first cache ip mac) ≡ length cache
unfolding replace_first
length-replace_first [] ip mac = refl
length-replace_first (e ∷ cache) ip mac = refl

-- An updated entry was found before.
update_entry-lookup :
    (cache : List ArpCacheEntry) (ip : InAddr) (mac : MacAddress) {out : List ArpCacheEntry}
    → update_entry cache ip mac ≡ some out
    → lookup_arp_cache cache ip ≢ none
unfolding update_entry lookup_arp_cache
update_entry-lookup [] ip mac e = absurd (cc e)
update_entry-lookup (x ∷ cache) ip mac e = elim (Option-cases (update_entry cache ip mac)) [
  | inl missing ↦ ground arith
  | inr (c, found) ↦ ground (arith, update_entry-lookup cache ip mac found)
]

-- Either an entry was updated or filled, or the cache was full and the address was new.
add-cases :
    (cache : List ArpCacheEntry) (ip : InAddr) (mac : MacAddress)
    → Sets cache (add_to_arp_cache cache ip mac) ip mac
      ⊎ (IsFull cache
          × (lookup_arp_cache cache ip ≡ none)
          × (add_to_arp_cache cache ip mac ≡ replace_first cache ip mac))
unfolding add_to_arp_cache
add-cases cache ip mac = elim (Option-cases (update_entry cache ip mac)) [
  | inr (c, found) ↦
      let e : add_to_arp_cache cache ip mac ≡ c = ground arith in
      inl (subst (λ o. Sets cache o ip mac) (sym e) (update_entry-Sets cache ip mac found))
  | inl missing ↦
      let absent = update_entry-none cache ip mac missing in
      elim (Option-cases (fill_entry cache ip mac)) [
        | inr (c, found) ↦
            let e : add_to_arp_cache cache ip mac ≡ c = ground arith in
            inl
              (subst (λ o. Sets cache o ip mac) (sym e) (fill_entry-Sets cache ip mac absent found))
        | inl full ↦ inr (fill_entry-none cache ip mac full, absent, ground arith)
      ]
]

-- After `add_to_arp_cache`, the lookup of the address finds the new MAC address, if the cache has
-- an entry at all.
pub lookup-add :
    (cache : List ArpCacheEntry) (ip : InAddr) (mac : MacAddress)
    → 0 < length cache
    → lookup_arp_cache (add_to_arp_cache cache ip mac) ip ≡ some mac
lookup-add cache ip mac h = elim (add-cases cache ip mac) [
  | inl s ↦ s.self
  | inr (_, _, e) ↦ rw e (lookup-replace_first cache ip mac h)
]

-- `add_to_arp_cache` changes the answer for no other address, if the address was in the cache or
-- an entry was free.
pub lookup-add_others :
    (cache : List ArpCacheEntry) (ip j : InAddr) (mac : MacAddress)
    → j ≢ ip
    → (lookup_arp_cache cache ip ≢ none) ⊎ ¬ IsFull cache
    → lookup_arp_cache (add_to_arp_cache cache ip mac) j ≡ lookup_arp_cache cache j
lookup-add_others cache ip j mac d room = elim (add-cases cache ip mac) [
  | inl s ↦ s.others j d
  | inr (full, absent, _) ↦ elim room [
    | inl known ↦ absurd (known absent)
    | inr free ↦ absurd (free full)
  ]
]

-- A new address in a full cache costs the first entry and no other: a lookup of another address
-- then finds what the cache without its first entry holds.
pub lookup-add_full :
    (e : ArpCacheEntry) (cache : List ArpCacheEntry) (ip j : InAddr) (mac : MacAddress)
    → IsFull (e ∷ cache)
    → lookup_arp_cache (e ∷ cache) ip ≡ none
    → j ≢ ip
    → lookup_arp_cache (add_to_arp_cache (e ∷ cache) ip mac) j ≡ lookup_arp_cache cache j
unfolding add_to_arp_cache
lookup-add_full e cache ip j mac full absent d =
    elim (Option-cases (update_entry (e ∷ cache) ip mac)) [
      | inr (c, found) ↦ absurd (update_entry-lookup (e ∷ cache) ip mac found absent)
      | inl missing ↦
          let nothing = fill_entry-IsFull (e ∷ cache) ip mac full in
          let replaced : add_to_arp_cache (e ∷ cache) ip mac ≡ replace_first (e ∷ cache) ip mac =
            ground arith in
          ap (λ c. lookup_arp_cache c j) replaced ∙ lookup-replace_first_other e cache ip j mac d
    ]

-- The cache keeps its size.
pub length-add :
    (cache : List ArpCacheEntry) (ip : InAddr) (mac : MacAddress)
    → length (add_to_arp_cache cache ip mac) ≡ length cache
length-add cache ip mac = elim (add-cases cache ip mac) [
  | inl s ↦ s.same_length
  | inr (_, _, e) ↦ rw e (length-replace_first cache ip mac)
]

-- ===== src/Router/Table.antt =====
-- Which route of router.c's table a packet takes, and what adding and deleting a route changes.
use project_and_training_3_n.Base.{
  ◌≡◌, ◌≢◌, inl, inr, refl, ap, true, false, Option, none, some, List, [], ◌∷◌, ◌++◌, bit_and,
  Bool-cases, All, arith,
}
use project_and_training_3_n.Router.{InAddr, RouteEntry}
use project_and_training_3_n.Router.Routes.{matches, find_route, add_route, is_route, del_route}

-- The network of a valid entry holds the destination.
abbrev pub Holds : InAddr → RouteEntry → Type 0
Holds dest e = (e.valid ≡ true) × (bit_and dest e.target_netmask ≡ e.target_network)

matches-Holds : (e : RouteEntry) (dest : InAddr) → matches e dest ≡ true → Holds dest e
unfolding matches
matches-Holds e dest m = ground arith

matches-not_Holds : (e : RouteEntry) (dest : InAddr) → matches e dest ≡ false → ¬ Holds dest e
unfolding matches
matches-not_Holds e dest m = ground arith

abbrev pub NoMatch : InAddr → List RouteEntry → Type 0
NoMatch dest = All (λ e. ¬ Holds dest e)

-- The first match: the network of no entry before it holds the destination.
pub record FirstMatch (table : List RouteEntry) (dest : InAddr) (e : RouteEntry) : Type 0 where
  pub before : List RouteEntry
  pub behind : List RouteEntry
  pub split : table ≡ before ++ e ∷ behind
  pub none_before : NoMatch dest before
  pub matching : Holds dest e

abbrev pub TakesFirst : List RouteEntry → InAddr → Option RouteEntry → Type 0
TakesFirst table dest none = NoMatch dest table
TakesFirst table dest (some e) = FirstMatch table dest e

further :
    (x : RouteEntry) (table : List RouteEntry) (dest : InAddr) (found : Option RouteEntry)
    → ¬ Holds dest x
    → TakesFirst table dest found
    → TakesFirst (x ∷ table) dest found
further x table dest none skip t = (skip, t)
further x table dest (some e) skip t = record {
  before = x ∷ t.before;
  behind = t.behind;
  split = ap (◌∷◌ x) t.split;
  none_before = (skip, t.none_before);
  matching = t.matching;
}

-- The route that `route` takes is the first entry of the table that is valid and whose network
-- holds the destination; if it takes none, there is no such entry.
pub find_route-TakesFirst :
    (table : List RouteEntry) (dest : InAddr) → TakesFirst table dest (find_route table dest)
unfolding find_route
find_route-TakesFirst [] dest = tt
find_route-TakesFirst (x ∷ table) dest = elim (Bool-cases (matches x dest)) [
  | inl here ↦ rw here (record {
    before = [];
    behind = table;
    split = refl;
    none_before = tt;
    matching = matches-Holds x dest here;
  })
  | inr there ↦ rw there (
      further x table dest (find_route table dest) (matches-not_Holds x dest there)
        (find_route-TakesFirst table dest))
]

-- A valid entry with that network and that netmask.
abbrev pub Has : InAddr → InAddr → RouteEntry → Type 0
Has network netmask e =
    (e.valid ≡ true) × ((e.target_network ≡ network) × (e.target_netmask ≡ netmask))

is_route-not_Has :
    (e : RouteEntry) (network netmask : InAddr)
    → ¬ Has network netmask e
    → is_route e network netmask ≡ false
unfolding is_route
is_route-not_Has e network netmask h = ground arith

-- No valid entry has that network and that netmask.
abbrev pub NoRoute : InAddr → InAddr → List RouteEntry → Type 0
NoRoute network netmask = All (λ e. ¬ Has network netmask e)

del_route-NoRoute :
    (table : List RouteEntry) (network netmask : InAddr)
    → NoRoute network netmask table
    → del_route table network netmask ≡ table
unfolding del_route
del_route-NoRoute [] network netmask h = refl
del_route-NoRoute (x ∷ table) network netmask h =
    ground
      (arith, is_route-not_Has x network netmask h.0, del_route-NoRoute table network netmask h.1)

-- A valid route, of a network and netmask that no valid entry of the table has: deleting it right
-- after it was added leaves every destination with the route it had, also when the table was full.
pub del_route-add_route :
    (table : List RouteEntry) (e : RouteEntry) (dest : InAddr)
    → e.valid ≡ true
    → NoRoute e.target_network e.target_netmask table
    → find_route (del_route (add_route table e) e.target_network e.target_netmask) dest
      ≡ find_route table dest
unfolding add_route del_route find_route is_route matches
del_route-add_route [] e dest v h = refl
del_route-add_route (x ∷ table) e dest v h = ground (
  arith,
  is_route-not_Has x e.target_network e.target_netmask h.0,
  del_route-add_route table e dest v h.1,
)

add_route-outside :
    (table : List RouteEntry) (e : RouteEntry) (dest : InAddr)
    → matches e dest ≡ false
    → find_route (add_route table e) dest ≡ find_route table dest
unfolding add_route find_route matches
add_route-outside [] e dest m = refl
add_route-outside (x ∷ table) e dest m = ground (arith, add_route-outside table e dest m)

add_route-inside :
    (table : List RouteEntry) (e : RouteEntry) (dest : InAddr)
    → matches e dest ≡ true
    → find_route table dest ≡ none
    → ¬ All (λ x. x.valid ≡ true) table
    → find_route (add_route table e) dest ≡ some e
unfolding add_route find_route matches
add_route-inside [] e dest m n free = absurd (free tt)
add_route-inside (x ∷ table) e dest m n free = elim (Bool-cases x.valid) [
  | inr unused ↦ ground arith
  | inl used ↦
      ground (arith, add_route-inside table e dest m (ground arith) (λ rest. free (used, rest)))
]

-- Adding a route changes nothing for a destination outside its network; a destination inside it
-- that had no route takes the new one, if an entry of the table was free.
pub find_route-add_route :
    (table : List RouteEntry) (e : RouteEntry) (dest : InAddr)
    → (matches e dest ≡ false → find_route (add_route table e) dest ≡ find_route table dest)
      × (matches e dest ≡ true
          → find_route table dest ≡ none
          → ¬ All (λ x. x.valid ≡ true) table
          → find_route (add_route table e) dest ≡ some e)
find_route-add_route table e dest = (add_route-outside table e dest, add_route-inside table e dest)

-- Deleting a route changes nothing for a destination outside its network.
pub find_route-del_route :
    (table : List RouteEntry) (network netmask dest : InAddr)
    → bit_and dest netmask ≢ network
    → find_route (del_route table network netmask) dest ≡ find_route table dest
unfolding del_route find_route is_route matches
find_route-del_route [] network netmask dest d = refl
find_route-del_route (x ∷ table) network netmask dest d =
    ground (arith, find_route-del_route table network netmask dest d)

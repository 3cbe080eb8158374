-- ===== src/Router/Routes.antt =====
-- The routing table of router.c, scanned from its first entry on.
use project_and_training_3_n.Base.{
  Bool, false, not, ◌&&◌, Option, none, some, List, [], ◌∷◌, bit_and, ◌==◌, if◌then◌else◌,
}
use project_and_training_3_n.Router.{InAddr, RouteEntry}

-- `(dest & target_netmask) == target_network` in a valid entry.
unfoldable pub matches : RouteEntry → InAddr → Bool
matches e dest = e.valid && bit_and dest e.target_netmask == e.target_network

-- The entry at which the loop of `route` stops.
unfoldable pub find_route : List RouteEntry → InAddr → Option RouteEntry
find_route [] dest = none
find_route (e ∷ table) dest =
    let rest = find_route table dest in if matches e dest then some e else rest

-- The loop of `process_cmd_route_add`: the first entry that is not valid is used. A full table
-- stays as it was.
unfoldable pub add_route : List RouteEntry → RouteEntry → List RouteEntry
add_route [] new = []
add_route (e ∷ table) new =
    let rest = add_route table new in if not e.valid then new ∷ table else e ∷ rest

unfoldable pub is_route : RouteEntry → InAddr → InAddr → Bool
is_route e network netmask = e.valid && (e.target_network == network && e.target_netmask == netmask)

-- The loop of `process_cmd_route_del`: the first entry of that network and netmask is not valid
-- any more.
unfoldable pub del_route : List RouteEntry → InAddr → InAddr → List RouteEntry
del_route [] network netmask = []
del_route (e ∷ table) network netmask =
    let rest = del_route table network netmask in
    if is_route e network netmask then record e { valid = false } ∷ table else e ∷ rest

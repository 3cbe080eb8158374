-- ===== src/Router/Command.antt =====
-- The commands that router.c takes: `find_interface`, `parse_route` and `handle_control`.
use project_and_training_3_n.Base.{
  ℕ, suc, true, Option, none, some, List, [], ◌∷◌, ◌++◌, Bytes, if◌then◌else◌, length, take, Result,
  ok, err, out_of_bounds, ◌>>=◌,
}
use project_and_training_3_n.Wire.Loop.{Handlers}
use project_and_training_3_n.Libc.{strchr, strtok, inet_pton, equal_case}
use project_and_training_3_n.Router.{Interface, RouteEntry, Router}
use project_and_training_3_n.Router.Routes.{add_route, del_route}
use project_and_training_3_n.Router.Frame.{handle_frame, handle_mac}
use project_and_training_3_n.Router.Args.{parse_network}

abbrev next : Option ℕ → Option ℕ
next none = none
next (some i) = some (suc i)

-- The index of the interface, `none` for `NULL`.
unfoldable pub find_interface : List Interface → Bytes → Option ℕ
find_interface [] name = none
find_interface (ifc ∷ gifc) name =
    let rest = next (find_interface gifc name) in if equal_case name ifc.name then some 0 else rest

-- `find_interface (strtok (NULL, " "))`: with no token left, `strcasecmp` reads a null pointer.
unfoldable pub find_next_interface : List Interface → List Bytes → Result (Option ℕ)
find_next_interface [] [] = ok none
find_next_interface (_ ∷ _) [] = err out_of_bounds
find_next_interface gifc (name ∷ _) = ok (find_interface gifc name)

-- The words of the commands.
abbrev pub via : Bytes
via = b'v' ∷ b'i' ∷ b'a' ∷ []

abbrev pub dev : Bytes
dev = b'd' ∷ b'e' ∷ b'v' ∷ []

abbrev pub add : Bytes
add = b'a' ∷ b'd' ∷ b'd' ∷ []

abbrev pub del : Bytes
del = b'd' ∷ b'e' ∷ b'l' ∷ []

abbrev pub route_word : Bytes
route_word = b'r' ∷ b'o' ∷ b'u' ∷ b't' ∷ b'e' ∷ []

abbrev pub made : ℕ → ℕ → ℕ → Option ℕ → Option RouteEntry
made network netmask next_hop none = none
made network netmask next_hop (some i) = some (record {
  target_network = network;
  target_netmask = netmask;
  next_hop = next_hop;
  ifc = i;
  valid = true;
})

-- The tokens are those that `strtok` has left. `ok none` stands for a return of 1.
unfoldable pub parse_route : List Interface → List Bytes → Result (Option RouteEntry)
unfolding find_next_interface
parse_route gifc (net ∷ w1 ∷ hop ∷ w2 ∷ toks) = elim (parse_network net) [
  | none ↦ ok none
  | some (network, netmask) ↦
      if equal_case via w1
      then elim (inet_pton hop) [
        | none ↦ ok none
        | some next_hop ↦
            if equal_case dev w2
            then (do
              found ← find_next_interface gifc toks
              ok (made network netmask next_hop found))
            else ok none
      ]
      else ok none
]
parse_route gifc _ = ok none

unfoldable pub process_cmd_route_add : Router → List Bytes → Result Router
process_cmd_route_add r toks = do
  parsed ← parse_route r.gifc toks
  ok (elim parsed [ none ↦ r | some e ↦ record r { route_table = add_route r.route_table e } ])

unfoldable pub process_cmd_route_del : Router → List Bytes → Result Router
process_cmd_route_del r toks = do
  parsed ← parse_route r.gifc toks
  ok (elim parsed [
    | none ↦ r
    | some e ↦ record r { route_table = del_route r.route_table e.target_network e.target_netmask }
  ])

-- "list", like no subcommand, and any other word change nothing.
unfoldable pub process_cmd_route : Router → List Bytes → Result Router
unfolding process_cmd_route_add process_cmd_route_del
process_cmd_route r [] = ok r
process_cmd_route r (subcommand ∷ toks) =
    if equal_case add subcommand
    then process_cmd_route_add r toks
    else if equal_case del subcommand
    then process_cmd_route_del r toks
    else ok r

-- The bytes up to a 0.
abbrev pub c_string : Bytes → Bytes
c_string s = elim (strchr 0 s) [ none ↦ s | some (text, _) ↦ text ]

-- The last byte is overwritten by the terminator. With no byte, the code writes in front of the
-- message and reads what stands behind it; that is a fault here.
unfoldable pub command_text : Bytes → Result Bytes
command_text [] = err out_of_bounds
command_text (c ∷ cmd) = ok (c_string (take (length cmd) (c ∷ cmd)))

-- "arp", and any other word, change nothing.
unfoldable pub process_cmd : Router → List Bytes → Result Router
unfolding process_cmd_route
process_cmd r [] = ok r
process_cmd r (tok ∷ toks) = if equal_case tok route_word then process_cmd_route r toks else ok r

unfoldable pub handle_control : Bytes → Router → Result Router
unfolding command_text process_cmd
handle_control cmd r = do text ← command_text cmd; process_cmd r (strtok b' ' text)

-- The program between two callbacks: its state and all that it wrote.
pub record Running : Type 0 where
  pub router : Router
  pub out : Bytes

-- The callbacks that `main` passes to `loop`.
unfoldable pub handlers : Handlers Running
handlers = record {
  frame = λ interface frame s. do
    (r, bytes) ← handle_frame interface frame s.router
    ok (record { router = r; out = s.out ++ bytes });
  control = λ cmd s. do
    r ← handle_control cmd s.router
    ok (record s { router = r });
  mac = λ ifc_num mac s. do
    r ← handle_mac ifc_num mac s.router
    ok (record s { router = r });
}

-- ===== src/Router/Invariant.antt =====
-- The well-formed states of router.c, which every callback keeps.
use project_and_training_3_n.Base.{
  ℕ, zero, suc, ◌<◌, ◌≡◌, inl, inr, refl, ap, ◌∙◌, subst, true, false, Option, none, some, List, [],
  ◌∷◌, Bytes, ltb, ◌==◌, if◌then◌else◌, Bool-cases, Option-cases, length, replicate, All, Result,
  ok, err, Fault, aborted, ◌>>=◌, Bool, ◌-◌, ntohs, take, drop, arith,
}
use project_and_training_3_n.Libc.{strtok, inet_pton, equal_case}
use project_and_training_3_n.Router.{
  Interface, RouteEntry, Router, eth_p_ipv4, eth_p_arp, route_table_size, arp_cache_size,
}
use project_and_training_3_n.Router.Routes.{add_route, is_route, del_route}
use project_and_training_3_n.Router.ArpCache.{add_to_arp_cache}
use project_and_training_3_n.Router.Cache.{length-add}
use project_and_training_3_n.Router.Frame.{
  ArpHeader, arp_header, arp_bytes, arp_reply, arp_header_size, forward_frame_payload_to, route,
  handle_arp, handle_ipv4, parse_frame, port, handle_frame,
}
use project_and_training_3_n.Router.Args.{parse_network, no_route, start, parse_args}
use project_and_training_3_n.Router.Command.{
  made, via, dev, add, del, route_word, find_interface, find_next_interface, parse_route,
  process_cmd_route_add, process_cmd_route_del, process_cmd_route, process_cmd, command_text,
  handle_control,
}

-- A valid route points to one of `n` interfaces.
abbrev pub Points : ℕ → RouteEntry → Type 0
Points n e = e.valid ≡ true → e.ifc < n

pub record IsValid (r : Router) : Type 0 where
  pub pointing : All (Points (length r.gifc)) r.route_table
  pub route_size : length r.route_table ≡ route_table_size
  pub cache_size : length r.arp_cache ≡ arp_cache_size

-- The outcome of a call, if it has one, is such a state.
pub record Keeps (call : Result Router) : Type 0 where
  pub holds : (out : Router) → call ≡ ok out → IsValid out

pub record KeepsState (call : Result (Router × Bytes)) : Type 0 where
  pub holds : (out : Router) (bytes : Bytes) → call ≡ ok (out, bytes) → IsValid out

fault-Keeps : (fault : Fault) → Keeps (err fault)
fault-Keeps fault = record { holds = λ out e. absurd (cc e) }

ok-Keeps : (r : Router) → IsValid r → Keeps (ok r)
ok-Keeps r v = record { holds = λ out e. subst IsValid (cc e) v }

fault-KeepsState : (fault : Fault) → KeepsState (err fault)
fault-KeepsState fault = record { holds = λ out bytes e. absurd (cc e) }

ok-KeepsState : (r : Router) (bytes : Bytes) → IsValid r → KeepsState (ok (r, bytes))
ok-KeepsState r bytes v = record { holds = λ out bytes' e. subst IsValid (cc e) v }

find_interface-lt :
    (gifc : List Interface) (name : Bytes) {i : ℕ}
    → find_interface gifc name ≡ some i
    → i < length gifc
unfolding find_interface
find_interface-lt [] name e = absurd (cc e)
find_interface-lt (ifc ∷ gifc) name {i} e = elim (Option-cases (find_interface gifc name)) [
  | inl missing ↦ ground arith
  | inr (j, found) ↦ ground (arith, find_interface-lt gifc name found)
]

add_route-Points :
    (n : ℕ) (table : List RouteEntry) (e : RouteEntry)
    → e.ifc < n
    → All (Points n) table
    → All (Points n) (add_route table e) × (length (add_route table e) ≡ length table)
unfolding add_route
add_route-Points n [] e h all = (tt, refl)
add_route-Points n (x ∷ table) e h all =
    let (rest, size) = add_route-Points n table e h all.1 in
    elim (Bool-cases x.valid) [
      | inl used ↦ rw used ((λ _. all.0 used, rest), ap suc size)
      | inr unused ↦ rw unused ((λ _. h, all.1), refl)
    ]

del_route-Points :
    (n : ℕ) (table : List RouteEntry) (network netmask : ℕ)
    → All (Points n) table
    → All (Points n) (del_route table network netmask)
      × (length (del_route table network netmask) ≡ length table)
unfolding del_route
del_route-Points n [] network netmask all = (tt, refl)
del_route-Points n (x ∷ table) network netmask all =
    let (rest, size) = del_route-Points n table network netmask all.1 in
    elim (Bool-cases (is_route x network netmask)) [
      | inl here ↦ rw here ((λ v. absurd (cc v), all.1), refl)
      | inr there ↦ rw there ((all.0, rest), ap suc size)
    ]

-- What `parse_route` returns points to an interface.
record Parsed (gifc : List Interface) (call : Result (Option RouteEntry)) : Type 0 where
  holds : (e : RouteEntry) → call ≡ ok (some e) → e.ifc < length gifc

none-Parsed : (gifc : List Interface) → Parsed gifc (ok none)
none-Parsed gifc = record { holds = λ e p. absurd (cc p) }

if-Parsed :
    (gifc : List Interface) (b : Bool) {x : Result (Option RouteEntry)}
    → Parsed gifc x
    → Parsed gifc (if b then x else ok none)
if-Parsed gifc true p = p
if-Parsed gifc false p = none-Parsed gifc

made-Parsed :
    (gifc : List Interface) (toks : List Bytes) (network netmask next_hop : ℕ)
    → Parsed gifc
        (find_next_interface gifc toks >>= λ found. ok (made network netmask next_hop found))
unfolding find_next_interface
made-Parsed [] [] network netmask next_hop = none-Parsed []
made-Parsed (_ ∷ _) [] network netmask next_hop = record { holds = λ e p. absurd (cc p) }
made-Parsed [] (name ∷ _) network netmask next_hop = unfold find_interface in none-Parsed []
made-Parsed (ifc ∷ gifc) (name ∷ _) network netmask next_hop =
    elim (Option-cases (find_interface (ifc ∷ gifc) name)) [
      | inl missing ↦ rw missing (none-Parsed (ifc ∷ gifc))
      | inr (i, found) ↦ rw found (record {
        holds = λ e p.
            let same : i ≡ e.ifc = cc p in
            subst (λ j. j < length (ifc ∷ gifc)) same (find_interface-lt (ifc ∷ gifc) name found);
      })
    ]

parse_route-Parsed :
    (gifc : List Interface) (toks : List Bytes) → Parsed gifc (parse_route gifc toks)
unfolding parse_route
parse_route-Parsed gifc (net ∷ w1 ∷ hop ∷ w2 ∷ toks) = elim (Option-cases (parse_network net)) [
  | inl bad ↦ rw (bad, parse_route) (none-Parsed gifc)
  | inr ((network, netmask), good) ↦
      rw (good, parse_route)
        (if-Parsed gifc (equal_case via w1) (elim (Option-cases (inet_pton hop)) [
          | inl bad ↦ rw bad (none-Parsed gifc)
          | inr (next_hop, hop_good) ↦
              rw hop_good (
                if-Parsed gifc (equal_case dev w2) (made-Parsed gifc toks network netmask next_hop))
        ]))
]
parse_route-Parsed gifc [] = none-Parsed gifc
parse_route-Parsed gifc (_ ∷ []) = none-Parsed gifc
parse_route-Parsed gifc (_ ∷ _ ∷ []) = none-Parsed gifc
parse_route-Parsed gifc (_ ∷ _ ∷ _ ∷ []) = none-Parsed gifc

if-Keeps : (b : Bool) {x y : Result Router} → Keeps x → Keeps y → Keeps (if b then x else y)
if-Keeps true kx ky = kx
if-Keeps false kx ky = ky

if-KeepsState :
    (b : Bool) {x y : Result (Router × Bytes)}
    → KeepsState x
    → KeepsState y
    → KeepsState (if b then x else y)
if-KeepsState true kx ky = kx
if-KeepsState false kx ky = ky

only-writes :
    (r : Router) (written : Result Bytes) → IsValid r → KeepsState (written >>= λ out. ok (r, out))
only-writes r (err fault) v = fault-KeepsState fault
only-writes r (ok out) v = ok-KeepsState r out v

handle_arp-KeepsState :
    (r : Router) (ifc : Interface) (ah : ArpHeader) → IsValid r → KeepsState (handle_arp r ifc ah)
unfolding handle_arp
handle_arp-KeepsState r ifc ah v =
    let written =
      forward_frame_payload_to ifc ah.sender_ha eth_p_arp (arp_bytes (arp_reply ifc ah))
        arp_header_size in
    if-KeepsState (ah.oper == 1)
      (if-KeepsState (ah.target_pa == ifc.ip) (only-writes r written v) (ok-KeepsState r [] v))
      (if-KeepsState (ah.oper == 2)
        (ok-KeepsState
          (record r { arp_cache = add_to_arp_cache r.arp_cache ah.sender_pa ah.sender_ha }) []
          (record {
            pointing = v.pointing;
            route_size = v.route_size;
            cache_size = length-add r.arp_cache ah.sender_pa ah.sender_ha ∙ v.cache_size;
          }))
        (ok-KeepsState r [] v))

parse_frame-KeepsState :
    (r : Router) (ifc : Interface) (frame : Bytes)
    → IsValid r
    → KeepsState (parse_frame r ifc frame)
unfolding parse_frame handle_ipv4
parse_frame-KeepsState r ifc frame v =
    let tag = ntohs (drop 12 frame) in
    let packet = drop 14 frame in
    let same = ok-KeepsState r [] v in
    if-KeepsState (ltb (length frame) 14) same (
      if-KeepsState (tag == eth_p_ipv4)
        (if-KeepsState (ltb (length packet) 20) same
          (only-writes r (route r (take 20 packet) (length packet - 20)) v))
        (if-KeepsState (tag == eth_p_arp)
          (if-KeepsState (ltb (length frame) 42) same
            (handle_arp-KeepsState r ifc (arp_header (take 28 packet)) v))
          same))

-- A frame that is handled at all leaves a well-formed state: 256 routes and 256 cache entries, and
-- every valid route on an interface that exists.
pub handle_frame-KeepsState :
    (r : Router) (interface : ℕ) (frame : Bytes)
    → IsValid r
    → KeepsState (handle_frame interface frame r)
unfolding handle_frame
handle_frame-KeepsState r interface frame v =
    if-KeepsState (ltb (length r.gifc) interface) (fault-KeepsState aborted)
      (at_port (port r.gifc interface))
  where
    at_port : (found : Result Interface) → KeepsState (found >>= λ ifc. parse_frame r ifc frame)
    at_port (err fault) = fault-KeepsState fault
    at_port (ok ifc) = parse_frame-KeepsState r ifc frame v

added :
    (r : Router) (parsed : Result (Option RouteEntry))
    → IsValid r
    → Parsed r.gifc parsed
    → Keeps (
        parsed >>= λ o.
        ok (elim o [ none ↦ r | some e ↦ record r { route_table = add_route r.route_table e } ]))
added r (err fault) v p = fault-Keeps fault
added r (ok none) v p = ok-Keeps r v
added r (ok (some e)) v p =
    let inside = p.holds e refl in
    let (pointing, size) = add_route-Points (length r.gifc) r.route_table e inside v.pointing in
    ok-Keeps _
      (record { pointing = pointing; route_size = size ∙ v.route_size; cache_size = v.cache_size })

deleted :
    (r : Router) (parsed : Result (Option RouteEntry))
    → IsValid r
    → Keeps (
        parsed >>= λ o. ok (elim o [
          | none ↦ r
          | some e ↦ record r {
            route_table = del_route r.route_table e.target_network e.target_netmask;
          }
        ]))
deleted r (err fault) v = fault-Keeps fault
deleted r (ok none) v = ok-Keeps r v
deleted r (ok (some e)) v =
    let (pointing, size) =
      del_route-Points (length r.gifc) r.route_table e.target_network e.target_netmask v.pointing in
    ok-Keeps _
      (record { pointing = pointing; route_size = size ∙ v.route_size; cache_size = v.cache_size })

process_cmd_route-Keeps :
    (r : Router) (toks : List Bytes) → IsValid r → Keeps (process_cmd_route r toks)
unfolding process_cmd_route process_cmd_route_add process_cmd_route_del
process_cmd_route-Keeps r [] v = ok-Keeps r v
process_cmd_route-Keeps r (w ∷ toks) v =
    if-Keeps (equal_case add w)
      (added r (parse_route r.gifc toks) v (parse_route-Parsed r.gifc toks))
      (if-Keeps (equal_case del w) (deleted r (parse_route r.gifc toks) v) (ok-Keeps r v))

process_cmd-Keeps : (r : Router) (toks : List Bytes) → IsValid r → Keeps (process_cmd r toks)
unfolding process_cmd
process_cmd-Keeps r [] v = ok-Keeps r v
process_cmd-Keeps r (w ∷ toks) v =
    if-Keeps (equal_case w route_word) (process_cmd_route-Keeps r toks v) (ok-Keeps r v)

-- A command, whatever its text, that does not end the program leaves a well-formed state.
pub handle_control-Keeps : (r : Router) (cmd : Bytes) → IsValid r → Keeps (handle_control cmd r)
unfolding handle_control
handle_control-Keeps r cmd v = on_text (command_text cmd)
  where
    on_text : (found : Result Bytes) → Keeps (found >>= λ text. process_cmd r (strtok b' ' text))
    on_text (err fault) = fault-Keeps fault
    on_text (ok text) = process_cmd-Keeps r (strtok b' ' text) v

pub no_route-Points : (n size : ℕ) → All (Points n) (replicate size no_route)
no_route-Points n zero = tt
no_route-Points n (suc size) = (λ v. absurd (cc v), no_route-Points n size)

-- `main` starts the loop in a well-formed state, or not at all.
pub start-Keeps : (args : List Bytes) → Keeps (start args)
unfolding start
start-Keeps args = elim (Option-cases (parse_args 1 args)) [
  | inl bad ↦ rw (bad, start) (fault-Keeps aborted)
  | inr (gifc, good) ↦
      rw (good, start)
        (ok-Keeps _ (record {
          pointing = no_route-Points (length gifc) route_table_size;
          route_size = refl;
          cache_size = refl;
        }))
]

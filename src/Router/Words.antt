-- ===== src/Router/Words.antt =====
-- What a command line and an argument of router.c do, from their text.
use project_and_training_3_n.Base.{
  ℕ, suc, ◌+◌, ◌-◌, ◌≤◌, ◌<◌, ◌≡◌, ◌⊎◌, refl, ap, ◌∙◌, true, Option, none, some, List, [], ◌∷◌,
  ◌++◌, Bytes, length, length-append, take_append, All, Result, ok, err, out_of_bounds, ◌>>=◌,
  arith,
}
use project_and_training_3_n.Libc.{inet_pton, equal_case, tolower, strchr, scan_uint}
use project_and_training_3_n.Libc.Tokens.{Lacks, join, IsToken, strtok-join, strchr-none}
use project_and_training_3_n.Router.{Interface, Router}
use project_and_training_3_n.Router.Routes.{add_route, del_route}
use project_and_training_3_n.Router.Args.{parse_network, parse_mtu}
use project_and_training_3_n.Router.Command.{
  made, via, dev, add, del, route_word, c_string, find_interface, find_next_interface, parse_route,
  process_cmd_route_add, process_cmd_route_del, process_cmd_route, process_cmd, command_text,
  handle_control,
}

-- The words with one space between two of them, and a newline.
abbrev pub line : List Bytes → Bytes
line words = join b' ' words ++ b'\n' ∷ []

pub command_text-last :
    (text : Bytes) (c : ℕ) → Lacks 0 text → command_text (text ++ c ∷ []) ≡ ok text
unfolding command_text
command_text-last [] c l = unfold strchr in refl
command_text-last (x ∷ text) c l =
    let n : suc (length text) ≡ length (text ++ c ∷ []) =
      omega (arith, length-append text (c ∷ [])) in
    let all = take_append (x ∷ text) (c ∷ []) (length (text ++ c ∷ [])) n in
    let whole : c_string (x ∷ text) ≡ x ∷ text = rw (c_string, strchr-none 0 (x ∷ text) l) refl in
    ap (λ (s : Bytes). ok (c_string s)) all ∙ ap ok whole

-- Words that come back from their line: none is empty, and none holds a space or the byte 0.
pub record IsPlain (words : List Bytes) : Type 0 where
  pub tokens : All (IsToken b' ') words
  pub ends : Lacks 0 (join b' ' words)

-- A line is processed as its words.
handle_control-line :
    (r : Router) (words : List Bytes)
    → IsPlain words
    → handle_control (line words) r ≡ process_cmd r words
unfolding handle_control
handle_control-line r words p =
    rw
      (
        command_text-last (join b' ' words) b'\n' p.ends,
        handle_control,
        strtok-join b' ' words p.tokens,
      )
      refl

find_next_interface-found :
    (gifc : List Interface) (name : Bytes) {i : ℕ}
    → find_interface gifc name ≡ some i
    → find_next_interface gifc (name ∷ []) ≡ ok (some i)
unfolding find_next_interface
find_next_interface-found [] name found = unfold find_interface in absurd (cc found)
find_next_interface-found (ifc ∷ gifc) name found = rw found refl

find_next_interface-missing :
    (gifc : List Interface) → 0 < length gifc → find_next_interface gifc [] ≡ err out_of_bounds
unfolding find_next_interface
find_next_interface-missing [] h = absurd (omega arith)
find_next_interface-missing (ifc ∷ gifc) h = refl

-- The line that adds or deletes (`word`) a route, up to "dev".
abbrev pub route_words : Bytes → Bytes → Bytes → List Bytes → List Bytes
route_words word net hop names = route_word ∷ word ∷ net ∷ via ∷ hop ∷ dev ∷ names

parse_route-words :
    (gifc : List Interface) (net hop name : Bytes) {network netmask next_hop i : ℕ}
    → parse_network net ≡ some (network, netmask)
    → inet_pton hop ≡ some next_hop
    → find_interface gifc name ≡ some i
    → parse_route gifc (net ∷ via ∷ hop ∷ dev ∷ name ∷ [])
      ≡ ok (made network netmask next_hop (some i))
unfolding parse_route equal_case tolower
parse_route-words gifc net hop name {network} {netmask} {next_hop} n h found =
    rw (n, parse_route, h)
      (ap (λ (o : Result (Option ℕ)). o >>= λ j. ok (made network netmask next_hop j))
        (find_next_interface-found gifc name found))

-- The line "route add NET via HOP dev NAME", with words that hold no space and no 0, a network, an
-- address and the name of an interface that are read, adds that route, and the same line with "del"
-- deletes the route of that network. Nothing else changes.
pub handle_control-route :
    (r : Router) (net hop name : Bytes) {network netmask next_hop i : ℕ}
    → IsPlain (route_words add net hop (name ∷ []))
    → IsPlain (route_words del net hop (name ∷ []))
    → parse_network net ≡ some (network, netmask)
    → inet_pton hop ≡ some next_hop
    → find_interface r.gifc name ≡ some i
    → (handle_control (line (route_words add net hop (name ∷ []))) r
        ≡ ok (record r {
          route_table = add_route r.route_table (record {
            target_network = network;
            target_netmask = netmask;
            next_hop = next_hop;
            ifc = i;
            valid = true;
          });
        }))
      × (handle_control (line (route_words del net hop (name ∷ []))) r
          ≡ ok (record r { route_table = del_route r.route_table network netmask }))
unfolding process_cmd process_cmd_route process_cmd_route_add process_cmd_route_del parse_route
    equal_case tolower
handle_control-route r net hop name pa pd n h found =
    let parsed = parse_route-words r.gifc net hop name n h found in
    (
      handle_control-line r (route_words add net hop (name ∷ [])) pa ∙ rw parsed refl,
      handle_control-line r (route_words del net hop (name ∷ [])) pd ∙ rw parsed refl,
    )

-- A line to add or delete a route that ends behind "dev", with words that hold no space and no 0, a
-- network and an address that are read, makes `strcasecmp` read a null pointer, if there is an
-- interface to compare with.
pub handle_control-no_device :
    (r : Router) (net hop : Bytes) {network netmask next_hop : ℕ}
    → 0 < length r.gifc
    → IsPlain (route_words add net hop [])
    → IsPlain (route_words del net hop [])
    → parse_network net ≡ some (network, netmask)
    → inet_pton hop ≡ some next_hop
    → (handle_control (line (route_words add net hop [])) r ≡ err out_of_bounds)
      × (handle_control (line (route_words del net hop [])) r ≡ err out_of_bounds)
unfolding process_cmd process_cmd_route process_cmd_route_add process_cmd_route_del parse_route
    equal_case tolower
handle_control-no_device r net hop some_ifc pa pd n h =
    let missing = find_next_interface-missing r.gifc some_ifc in
    let parsed : parse_route r.gifc (net ∷ via ∷ hop ∷ dev ∷ []) ≡ err out_of_bounds =
      rw (parse_route, n, h, missing) refl in
    (
      handle_control-line r (route_words add net hop []) pa ∙ rw parsed refl,
      handle_control-line r (route_words del net hop []) pd ∙ rw parsed refl,
    )

-- The number behind "=" gives the MTU: from 400 to 65521 that number and the Ethernet header's
-- size; from 65522 to 65535 it wraps to less than that size; any other number is refused.
pub parse_mtu_lem :
    (arg : Bytes) (n : ℕ)
    → scan_uint arg ≡ some n
    → (400 ≤ n → n < 65522 → parse_mtu (b'=' ∷ arg) ≡ some (n + 14))
      × (65522 ≤ n → n < 65536 → parse_mtu (b'=' ∷ arg) ≡ some (n - 65522))
      × ((n < 400) ⊎ (65536 ≤ n) → parse_mtu (b'=' ∷ arg) ≡ none)
unfolding parse_mtu
parse_mtu_lem arg n e =
    rw (e, parse_mtu) (λ a b. ground arith, λ a b. ground arith, λ a. ground arith)

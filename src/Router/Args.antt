-- ===== src/Router/Args.antt =====
-- The command line of router.c: `parse_network`, `parse_network_arg`, `parse_cmd_arg` and `main`.
use project_and_training_3_n.Base.{
  ℕ, ◌+◌, ◌-◌, ◌%◌, ◌^◌, false, Option, none, some, List, [], ◌∷◌, Bytes, ◌==◌, ltb, if◌then◌else◌,
  replicate, Result, ok, err, aborted,
}
use project_and_training_3_n.Wire.{mac_addr_size}
use project_and_training_3_n.Libc.{strchr, scan_uint, inet_pton, after_prefix}
use project_and_training_3_n.Router.{
  InAddr, Interface, RouteEntry, ArpCacheEntry, Router, route_table_size, arp_cache_size,
}
use project_and_training_3_n.Router.Frame.{ethernet_header_size}

-- `~(uint32_t) ((1LLU << (32 - mask)) - 1LLU)`
unfoldable pub netmask_of : ℕ → InAddr
netmask_of mask = 2 ^ 32 - 2 ^ (32 - mask)

-- The network and the netmask; `none` stands for a return of 1.
unfoldable pub parse_network : Bytes → Option (InAddr × InAddr)
unfolding netmask_of
parse_network net = elim (strchr b'/' net) [
  | none ↦ none
  | some (ip, tok) ↦ elim (inet_pton ip) [
    | none ↦ none
    | some network ↦ elim (scan_uint tok) [
      | none ↦ none
      | some mask ↦ if ltb 32 mask then none else some (network, netmask_of mask)
    ]
  ]
]

-- "IPV4:"
abbrev pub ipv4_prefix : Bytes
ipv4_prefix = b'I' ∷ b'P' ∷ b'V' ∷ b'4' ∷ b':' ∷ []

unfoldable pub parse_network_arg : Bytes → Option (InAddr × InAddr)
unfolding parse_network
parse_network_arg net = elim (after_prefix ipv4_prefix net) [
  | none ↦ none
  | some rest ↦ parse_network rest
]

-- The text behind `]`: the `mtu`, a `uint16_t`.
unfoldable pub parse_mtu : Bytes → Option ℕ
parse_mtu [] = some (1500 + ethernet_header_size)
parse_mtu (c ∷ arg) =
    if c == b'='
    then elim (scan_uint arg) [
      | none ↦ none
      | some mtu ↦
          if ltb mtu 400
          then none
          else if ltb (2 ^ 16 - 1) mtu
          then none
          else some ((mtu + ethernet_header_size) % 2 ^ 16)
    ]
    else some (1500 + ethernet_header_size)

-- The interface after `memset` and the store of `ifc_num`, with what the argument gives.
unfoldable pub parse_cmd_arg : ℕ → Bytes → Option Interface
unfolding parse_network_arg parse_mtu
parse_cmd_arg ifc_num arg = elim (strchr b'[' arg) [
  | none ↦ none
  | some (name, behind) ↦ elim (strchr b']' behind) [
    | none ↦ none
    | some (nspec, tail) ↦ elim (parse_network_arg nspec) [
      | none ↦ none
      | some (ip, netmask) ↦ elim (parse_mtu tail) [
        | none ↦ none
        | some mtu ↦ some (record {
          mac = replicate mac_addr_size 0;
          ip = ip;
          netmask = netmask;
          name = name;
          ifc_num = ifc_num;
          mtu = mtu;
        })
      ]
    ]
  ]
]

-- The loop of `main` over `argv[i]`, ...; `ifc_num` is a `uint16_t`.
unfoldable pub parse_args : ℕ → List Bytes → Option (List Interface)
parse_args i [] = some []
parse_args i (arg ∷ args) =
    let rest = parse_args (i + 1) args in
    elim (parse_cmd_arg (i % 2 ^ 16) arg) [
      | none ↦ none
      | some ifc ↦ elim rest [ none ↦ none | some gifc ↦ some (ifc ∷ gifc) ]
    ]

-- Entries of the static tables before their first use.
abbrev pub no_route : RouteEntry
no_route = record { target_network = 0; target_netmask = 0; next_hop = 0; ifc = 0; valid = false }

abbrev pub no_address : ArpCacheEntry
no_address = record { ip = 0; mac = replicate mac_addr_size 0; valid = false }

-- The state in which `main` starts the loop.
unfoldable pub start : List Bytes → Result Router
start args = elim (parse_args 1 args) [
  | none ↦ err aborted
  | some gifc ↦ ok (record {
    gifc = gifc;
    route_table = replicate route_table_size no_route;
    arp_cache = replicate arp_cache_size no_address;
  })
]

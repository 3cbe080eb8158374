-- ===== src/Arp/Args.antt =====
-- The command line of arp.c: `parse_network`, `parse_cmd_arg` and `main`.
use project_and_training_3_n.Base.{
  ℕ, ◌+◌, ◌%◌, ◌^◌, Option, none, some, List, [], ◌∷◌, Bytes, ◌==◌, ltb, if◌then◌else◌, replicate,
  Result, ok, err, aborted,
}
use project_and_training_3_n.Wire.{mac_addr_size}
use project_and_training_3_n.Libc.{strchr, scan_uint, inet_pton, after_prefix}
use project_and_training_3_n.Router.{InAddr, Interface}
use project_and_training_3_n.Router.Frame.{ethernet_header_size}
use project_and_training_3_n.Router.Args.{ipv4_prefix, netmask_of, no_address}
use project_and_training_3_n.Arp.{ArpTool}

-- The address and the netmask; `none` stands for a return of 1.
unfoldable pub parse_network : Bytes → Option (InAddr × InAddr)
parse_network net = elim (after_prefix ipv4_prefix net) [
  | none ↦ none
  | some rest ↦ elim (strchr b'/' rest) [
    | none ↦ none
    | some (ip, tok) ↦ elim (inet_pton ip) [
      | none ↦ none
      | some address ↦ elim (scan_uint tok) [
        | none ↦ none
        | some mask ↦ if ltb 32 mask then none else some (address, netmask_of mask)
      ]
    ]
  ]
]

-- The text behind `]`: the `mtu`, a `uint16_t`. There is no test for a number that is too large.
unfoldable pub parse_mtu : Bytes → Option ℕ
parse_mtu [] = some (1500 + ethernet_header_size)
parse_mtu (c ∷ arg) =
    if c == b'='
    then elim (scan_uint arg) [
      | none ↦ none
      | some mtu ↦ if ltb mtu 400 then none else some ((mtu + ethernet_header_size) % 2 ^ 16)
    ]
    else some (1500 + ethernet_header_size)

-- The interface after `memset` and the store of `ifc_num`, with what the argument gives.
unfoldable pub parse_cmd_arg : ℕ → Bytes → Option Interface
unfolding parse_network parse_mtu
parse_cmd_arg ifc_num arg = elim (strchr b'[' arg) [
  | none ↦ none
  | some (name, behind) ↦ elim (strchr b']' behind) [
    | none ↦ none
    | some (nspec, tail) ↦ elim (parse_network nspec) [
      | none ↦ none
      | some (ip, netmask) ↦ elim (parse_mtu tail) [
        | none ↦ none
        | some mtu ↦ some (record {
          mac = replicate mac_addr_size 0;
          ip = ip;
          netmask = netmask;
          name = name;
          ifc_num = ifc_num;
          mtu = mtu;
        })
      ]
    ]
  ]
]

-- The loop of `main` over `argv[i]`, ...; `ifc_num` is a `uint16_t`.
unfoldable pub parse_args : ℕ → List Bytes → Option (List Interface)
parse_args i [] = some []
parse_args i (arg ∷ args) =
    let rest = parse_args (i + 1) args in
    elim (parse_cmd_arg (i % 2 ^ 16) arg) [
      | none ↦ none
      | some ifc ↦ elim rest [ none ↦ none | some gifc ↦ some (ifc ∷ gifc) ]
    ]

-- The state in which `main` starts the loop.
unfoldable pub start : List Bytes → Result ArpTool
start args = elim (parse_args 1 args) [
  | none ↦ err aborted
  | some gifc ↦ ok (record { gifc = gifc; arp_cache = λ _. no_address })
]

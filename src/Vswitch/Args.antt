-- ===== src/Vswitch/Args.antt =====
-- The command line of vswitch.c: `parse_tagged`, `parse_untagged`, `parse_vlan_args` and `main`.
use project_and_training_3_n.Base.{
  ℕ, ◌+◌, ◌%◌, ◌^◌, false, Option, none, some, List, [], ◌∷◌, Bytes, ◌==◌, ltb, if◌then◌else◌,
  replicate,
}
use project_and_training_3_n.Wire.{mac_addr_size}
use project_and_training_3_n.Libc.{strchr, strtok, scan_uint}
use project_and_training_3_n.Vswitch.{Interface, MacTableEntry, Vswitch, max_vlans, default_vlan}

-- The loop over the tokens; `pos` counts those read. `none` stands for a return of 1.
unfoldable pub parse_tags : ℕ → List Bytes → Option (List ℕ)
parse_tags pos [] = some []
parse_tags pos (tok ∷ toks) =
    let rest = parse_tags (pos + 1) toks in
    if pos == max_vlans then none else elim (scan_uint tok) [
      | none ↦ none
      | some tag ↦
          if ltb max_vlans tag
          then none
          else elim rest [ none ↦ none | some tags ↦ some (tag ∷ tags) ]
    ]

-- The text from `start` to `end`.
unfoldable pub parse_tagged : Bytes → Option (List ℕ)
unfolding parse_tags
parse_tagged [] = none
parse_tagged (c ∷ spec) = if c == b':' then parse_tags 0 (strtok b',' spec) else none

unfoldable pub parse_untagged : Bytes → Option ℕ
parse_untagged [] = none
parse_untagged (c ∷ spec) =
    if c == b':'
    then elim (scan_uint spec) [
      | none ↦ none
      | some tag ↦ if ltb max_vlans tag then none else some tag
    ]
    else none

-- An interface with zeroed address. Its VLANs are set below.
abbrev pub fresh : ℕ → Bytes → List ℕ → Option ℕ → Interface
fresh ifc_num name tagged untagged = record {
  mac = replicate mac_addr_size 0;
  ifc_num = ifc_num;
  ifc_name = name;
  tagged_vlans = tagged;
  untagged_vlan = untagged;
}

-- The `switch` on the first byte between the brackets; `]` itself if there is nothing between.
unfoldable pub parse_spec : ℕ → Bytes → Bytes → Option Interface
unfolding parse_tagged parse_untagged
parse_spec ifc_num name [] = none
parse_spec ifc_num name (c ∷ spec) =
    if c == b'T'
    then elim (parse_tagged spec) [ none ↦ none | some tags ↦ some (fresh ifc_num name tags none) ]
    else if c == b'U'
    then elim (parse_untagged spec) [
      | none ↦ none
      | some tag ↦ some (fresh ifc_num name [] (some tag))
    ]
    else none

unfoldable pub parse_vlan_args : ℕ → Bytes → Option Interface
unfolding parse_spec
parse_vlan_args ifc_num arg = elim (strchr b'[' arg) [
  | none ↦ some (fresh ifc_num arg [] (some default_vlan))
  | some (name, behind) ↦ elim (strchr b']' behind) [
    | none ↦ none
    | some (spec, _) ↦ parse_spec ifc_num name spec
  ]
]

-- The loop of `main` over `argv[i]`, ...; `ifc_num` is a `uint16_t`.
unfoldable pub parse_args : ℕ → List Bytes → Option (List Interface)
parse_args i [] = some []
parse_args i (arg ∷ args) =
    let rest = parse_args (i + 1) args in
    elim (parse_vlan_args (i % 2 ^ 16) arg) [
      | none ↦ none
      | some ifc ↦ elim rest [ none ↦ none | some gifc ↦ some (ifc ∷ gifc) ]
    ]

-- An entry of the table after `memset`.
abbrev pub zeroed : MacTableEntry
zeroed = record {
  mac = replicate mac_addr_size 0;
  ifc_num = 0;
  vlan_id = 0;
  last_seen = 0;
  valid = false;
}

-- The state in which `main` starts the loop; `none` if it returns 1 before.
unfoldable pub start : List Bytes → Option Vswitch
start args = elim (parse_args 1 args) [
  | none ↦ none
  | some gifc ↦ some (record { gifc = gifc; mac_table = λ _. zeroed })
]

-- ===== src/Router/Tests.antt =====
-- A router with two interfaces, two stations that it knows and one route.
use project_and_training_3_n.Base.{
  ◌≡◌, ◌⊎◌, refl, true, none, some, List, [], ◌∷◌, ◌++◌, Bytes, ◌<◌, ◌≤◌, replicate, ok, err,
  out_of_bounds, arith,
}
use project_and_training_3_n.Wire.{MacAddress, header_bytes}
use project_and_training_3_n.Libc.{scan_uint, inet_pton, equal_case}
use project_and_training_3_n.Router.{
  Interface, RouteEntry, ArpCacheEntry, Router, route_table_size, arp_cache_size,
}
use project_and_training_3_n.Router.ArpCache.{lookup_arp_cache}
use project_and_training_3_n.Router.Routes.{matches, find_route, is_route, add_route, del_route}
use project_and_training_3_n.Router.Table.{
  TakesFirst, NoRoute, find_route-TakesFirst, del_route-add_route,
}
use project_and_training_3_n.Router.Frame.{
  ArpHeader, destination_address, interface_at, route, parse_frame, handle_frame,
}
use project_and_training_3_n.Router.Sending.{route_lem}
use project_and_training_3_n.Router.ArpFrame.{Fits, arp_frame}
use project_and_training_3_n.Router.Arp.{answer, request-answered, answer-learned}
use project_and_training_3_n.Router.Args.{parse_network, parse_mtu, no_route, no_address, start}
use project_and_training_3_n.Router.Command.{add, del, find_interface, handle_control}
use project_and_training_3_n.Router.Invariant.{
  IsValid, Keeps, no_route-Points, handle_control-Keeps,
}
use project_and_training_3_n.Router.Effect.{Effect, handle_frame-Effect}
use project_and_training_3_n.Router.Frame.{port, handle_arp, arp_header, arp_bytes}
use project_and_training_3_n.Router.Running.{Faulty, loop-IsValid}
use project_and_training_3_n.Wire.Loop.{LoopState, loop}
use project_and_training_3_n.Wire.Safety.{Ends}
use project_and_training_3_n.Libc.{after_prefix, strchr}
use project_and_training_3_n.Router.Args.{parse_args, parse_cmd_arg, start}
use project_and_training_3_n.Router.Command.{handlers, Running}
use project_and_training_3_n.Router.Words.{
  line, IsPlain, route_words, handle_control-route, handle_control-no_device, parse_mtu_lem,
}

abbrev mac1 : MacAddress
mac1 = 2 ∷ 0 ∷ 0 ∷ 0 ∷ 0 ∷ 1 ∷ []

abbrev mac2 : MacAddress
mac2 = 2 ∷ 0 ∷ 0 ∷ 0 ∷ 0 ∷ 2 ∷ []

abbrev station : MacAddress
station = 2 ∷ 0 ∷ 0 ∷ 0 ∷ 1 ∷ 1 ∷ []

-- 10.0.0.1/8 and 11.0.0.1/8
abbrev eth1 : Interface
eth1 = record {
  mac = mac1;
  ip = 0x0a000001;
  netmask = 0xff000000;
  name = b'a' ∷ [];
  ifc_num = 1;
  mtu = 1514;
}

abbrev eth2 : Interface
eth2 = record {
  mac = mac2;
  ip = 0x0b000001;
  netmask = 0xff000000;
  name = b'b' ∷ [];
  ifc_num = 2;
  mtu = 1514;
}

-- 12.0.0.0/8 via 11.0.0.2 dev b
abbrev twelve : RouteEntry
twelve = record {
  target_network = 0x0c000000;
  target_netmask = 0xff000000;
  next_hop = 0x0b000002;
  ifc = 1;
  valid = true;
}

-- 13.0.0.0/8 via 11.0.0.2 dev b
abbrev thirteen : RouteEntry
thirteen = record twelve { target_network = 0x0d000000 }

abbrev table : List RouteEntry
table = twelve ∷ no_route ∷ []

abbrev known : ArpCacheEntry
known = record { ip = 0x0b000002; mac = station; valid = true }

abbrev cache : List ArpCacheEntry
cache = known ∷ no_address ∷ []

abbrev small : Router
small = record { gifc = eth1 ∷ eth2 ∷ []; route_table = table; arp_cache = cache }

abbrev idle : Router
idle = record {
  gifc = eth1 ∷ eth2 ∷ [];
  route_table = replicate route_table_size no_route;
  arp_cache = replicate arp_cache_size no_address;
}

idle-IsValid : IsValid idle
idle-IsValid = record {
  pointing = no_route-Points 2 route_table_size;
  route_size = refl;
  cache_size = refl;
}

find_route-TakesFirst_example : TakesFirst table 0x0c000005 (find_route table 0x0c000005)
find_route-TakesFirst_example = find_route-TakesFirst table 0x0c000005

table-NoRoute : NoRoute 0x0d000000 0xff000000 table
table-NoRoute = (λ (_, (e, _)). absurd (omega arith), (λ (v, _). absurd (cc v), tt))

del_route-add_route_example :
    find_route (del_route (add_route table thirteen) 0x0d000000 0xff000000) 0x0d000001
    ≡ find_route table 0x0d000001
unfolding is_route
del_route-add_route_example = del_route-add_route table thirteen 0x0d000001 refl table-NoRoute

-- An IPv4 header for 12.0.0.5.
abbrev ip : Bytes
ip = 0x45 ∷ 0 ∷ 0 ∷ 28 ∷ 0 ∷ 0 ∷ 0 ∷ 0 ∷ 64 ∷ 17 ∷ 0 ∷ 0 ∷ (10 ∷ 0 ∷ 0 ∷ 5 ∷ (12 ∷ 0 ∷ 0 ∷ 5 ∷ []))

-- 21 bytes behind the header are too many.
route_lem_example : route small ip 21 ≡ err out_of_bounds
unfolding find_route matches destination_address lookup_arp_cache interface_at
route_lem_example =
    route_lem small ip 21 {e = twelve} {mac = station} {ifc = eth2} refl refl refl refl refl refl

-- The station asks who has 11.0.0.1.
abbrev question : ArpHeader
question = record {
  htype = 1;
  ptype = 0x0800;
  hlen = 6;
  plen = 4;
  oper = 1;
  sender_ha = station;
  sender_pa = 0x0b000002;
  target_ha = 0 ∷ 0 ∷ 0 ∷ 0 ∷ 0 ∷ 0 ∷ [];
  target_pa = 0x0b000001;
}

question-Fits : Fits question
question-Fits = record {
  htype = omega arith;
  ptype = omega arith;
  oper = omega arith;
  sender_ha = refl;
  sender_pa = omega arith;
  target_ha = refl;
  target_pa = omega arith;
}

abbrev broadcast : MacAddress
broadcast = 255 ∷ 255 ∷ 255 ∷ 255 ∷ 255 ∷ 255 ∷ []

request-answered_example :
    parse_frame small eth2 (arp_frame broadcast station question [])
    ≡ ok (
      small,
      header_bytes (record { size = 46; type = 2 })
          ++ arp_frame station mac2 (answer eth2 question) [],
    )
request-answered_example =
    request-answered small eth2 broadcast station question [] refl refl question-Fits refl
      (omega arith) refl

answer-learned_example :
    (reply : Bytes) × (out : Router) × (parse_frame small eth2
        (arp_frame broadcast station question [])
      ≡ ok (small, header_bytes (record { size = 46; type = 2 }) ++ reply))
    × (parse_frame small eth1 (reply ++ (0 ∷ 0 ∷ [])) ≡ ok (out, []))
    × (lookup_arp_cache out.arp_cache 0x0b000001 ≡ some mac2)
answer-learned_example =
    answer-learned small small eth2 eth1 broadcast station question [] (0 ∷ 0 ∷ []) refl refl
      question-Fits refl (omega arith) (omega arith) refl refl (omega arith)

abbrev reply_frame : Bytes
reply_frame = arp_frame mac1 station (answer eth2 question) []

-- The reply above, as the router gets it on its first interface.
heard : (o : Router × Bytes) × (handle_frame 1 reply_frame small ≡ ok o)
unfolding handle_frame port interface_at parse_frame handle_arp arp_header arp_bytes
heard = (_, refl)

handle_frame-Effect_example : Effect small reply_frame heard.0.0
handle_frame-Effect_example = handle_frame-Effect small 1 reply_frame (omega arith) heard.1

abbrev net : Bytes
net = b'1' ∷ b'2' ∷ b'.' ∷ b'0' ∷ b'.' ∷ b'0' ∷ b'.' ∷ b'0' ∷ b'/' ∷ b'8' ∷ []

abbrev hop : Bytes
hop = b'1' ∷ b'1' ∷ b'.' ∷ b'0' ∷ b'.' ∷ b'0' ∷ b'.' ∷ b'2' ∷ []

abbrev name : Bytes
name = b'b' ∷ []

handle_control-Keeps_example :
    Keeps (handle_control (line (route_words add net hop (name ∷ []))) idle)
handle_control-Keeps_example =
    handle_control-Keeps idle (line (route_words add net hop (name ∷ []))) idle-IsValid

add-IsPlain : IsPlain (route_words add net hop (name ∷ []))
add-IsPlain = record { tokens = ground arith; ends = ground arith }

del-IsPlain : IsPlain (route_words del net hop (name ∷ []))
del-IsPlain = record { tokens = ground arith; ends = ground arith }

handle_control-route_example :
    (handle_control (line (route_words add net hop (name ∷ []))) small
      ≡ ok (record small { route_table = add_route table twelve }))
    × (handle_control (line (route_words del net hop (name ∷ []))) small
        ≡ ok (record small { route_table = del_route table 0x0c000000 0xff000000 }))
unfolding parse_network inet_pton find_interface equal_case scan_uint
handle_control-route_example =
    handle_control-route small net hop name add-IsPlain del-IsPlain refl refl refl

short-add-IsPlain : IsPlain (route_words add net hop [])
short-add-IsPlain = record { tokens = ground arith; ends = ground arith }

short-del-IsPlain : IsPlain (route_words del net hop [])
short-del-IsPlain = record { tokens = ground arith; ends = ground arith }

handle_control-no_device_example :
    (handle_control (line (route_words add net hop [])) small ≡ err out_of_bounds)
    × (handle_control (line (route_words del net hop [])) small ≡ err out_of_bounds)
unfolding parse_network inet_pton scan_uint
handle_control-no_device_example =
    handle_control-no_device small net hop {network = 0x0c000000} {netmask = 0xff000000}
      {next_hop = 0x0b000002} (omega arith) short-add-IsPlain short-del-IsPlain refl refl

-- "eth[IPV4:...]=65535"
parse_mtu_lem_example :
    (400 ≤ 65535
      → 65535 < 65522
      → parse_mtu (b'=' ∷ b'6' ∷ b'5' ∷ b'5' ∷ b'3' ∷ b'5' ∷ []) ≡ some 65549)
    × (65522 ≤ 65535
        → 65535 < 65536
        → parse_mtu (b'=' ∷ b'6' ∷ b'5' ∷ b'5' ∷ b'3' ∷ b'5' ∷ []) ≡ some 13)
    × ((65535 < 400) ⊎ (65536 ≤ 65535)
        → parse_mtu (b'=' ∷ b'6' ∷ b'5' ∷ b'5' ∷ b'3' ∷ b'5' ∷ []) ≡ none)
unfolding scan_uint
parse_mtu_lem_example = parse_mtu_lem (b'6' ∷ b'5' ∷ b'5' ∷ b'3' ∷ b'5' ∷ []) 65535 refl

-- "b[IPV4:11.0.0.1/8]=9000"
abbrev argument : Bytes
argument =
    b'b'
    ∷ b'['
    ∷ b'I'
    ∷ b'P'
    ∷ b'V'
    ∷ b'4'
    ∷ b':'
    ∷ (b'1'
        ∷ b'1'
        ∷ b'.'
        ∷ b'0'
        ∷ b'.'
        ∷ b'0'
        ∷ b'.'
        ∷ b'1'
        ∷ b'/'
        ∷ b'8'
        ∷ (b']' ∷ b'=' ∷ b'9' ∷ b'0' ∷ b'0' ∷ b'0' ∷ []))

abbrev first : Router
first = record {
  gifc =
      record {
        mac = replicate 6 0;
        ip = 0x0b000001;
        netmask = 0xff000000;
        name = b'b' ∷ [];
        ifc_num = 1;
        mtu = 9014;
      }
      ∷ [];
  route_table = replicate route_table_size no_route;
  arp_cache = replicate arp_cache_size no_address;
}

start-argument : start (argument ∷ []) ≡ ok first
unfolding start parse_args parse_cmd_arg parse_network inet_pton scan_uint strchr after_prefix
start-argument = refl

loop-IsValid_example :
    Ends Faulty
      (λ (st : LoopState Running). IsValid st.app.router)
      (loop handlers ((0 ∷ 5 ∷ 0 ∷ []) ∷ (1 ∷ 9 ∷ []) ∷ []) (record { router = first; out = [] }))
loop-IsValid_example =
    loop-IsValid (argument ∷ []) ((0 ∷ 5 ∷ 0 ∷ []) ∷ (1 ∷ 9 ∷ []) ∷ []) first start-argument

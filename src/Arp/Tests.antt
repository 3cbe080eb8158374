-- ===== src/Arp/Tests.antt =====
-- arp.c with one interface, and a station that asks it.
use project_and_training_3_n.Base.{◌≡◌, ◌≢◌, ◌%◌, refl, some, [], ◌∷◌, ◌++◌, replicate, ok, arith}
use project_and_training_3_n.Wire.{MacAddress, header_bytes}
use project_and_training_3_n.Router.{Interface, Router}
use project_and_training_3_n.Router.ArpCache
use project_and_training_3_n.Router.Args.{no_address, no_route}
use project_and_training_3_n.Router.Frame
use project_and_training_3_n.Router.Frame.{ArpHeader}
use project_and_training_3_n.Router.ArpFrame.{Fits, arp_frame}
use project_and_training_3_n.Arp.{ArpTool, ArpCache, lookup_arp_cache}
use project_and_training_3_n.Arp.Frame.{parse_frame, reply_bytes}
use project_and_training_3_n.Arp.Answers.{
  IsIpv4, answer, parse_frame-request, parse_frame-reply, reply_bytes-learned,
}

abbrev station : MacAddress
station = 2 ∷ 0 ∷ 0 ∷ 0 ∷ 1 ∷ 1 ∷ []

abbrev broadcast : MacAddress
broadcast = replicate 6 255

-- 11.0.0.1
abbrev eth : Interface
eth = record {
  mac = 2 ∷ 0 ∷ 0 ∷ 0 ∷ 0 ∷ 2 ∷ [];
  ip = 0x0b000001;
  netmask = 0xff000000;
  name = b'b' ∷ [];
  ifc_num = 1;
  mtu = 1514;
}

abbrev cache : ArpCache
cache = λ _. no_address

abbrev tool : ArpTool
tool = record { gifc = eth ∷ []; arp_cache = cache }

-- The station asks who has 11.0.0.1.
abbrev question : ArpHeader
question = record {
  htype = 1;
  ptype = 0x0800;
  hlen = 6;
  plen = 4;
  oper = 1;
  sender_ha = station;
  sender_pa = 0x0b000002;
  target_ha = replicate 6 0;
  target_pa = 0x0b000001;
}

-- The station says that it has 11.0.0.2.
abbrev statement : ArpHeader
statement = record question { oper = 2 }

question-Fits : Fits question
question-Fits = record {
  htype = omega arith;
  ptype = omega arith;
  oper = omega arith;
  sender_ha = refl;
  sender_pa = omega arith;
  target_ha = refl;
  target_pa = omega arith;
}

statement-Fits : Fits statement
statement-Fits = record {
  htype = omega arith;
  ptype = omega arith;
  oper = omega arith;
  sender_ha = refl;
  sender_pa = omega arith;
  target_ha = refl;
  target_pa = omega arith;
}

question-IsIpv4 : IsIpv4 question
question-IsIpv4 = record { htype = refl; ptype = refl; hlen = refl; plen = refl }

statement-IsIpv4 : IsIpv4 statement
statement-IsIpv4 = record { htype = refl; ptype = refl; hlen = refl; plen = refl }

parse_frame-request_example :
    parse_frame tool eth (arp_frame broadcast station question (replicate 18 0))
    ≡ ok (
      tool,
      header_bytes (record { size = 46; type = 1 })
          ++ arp_frame station (2 ∷ 0 ∷ 0 ∷ 0 ∷ 0 ∷ 2 ∷ []) (answer eth question) [],
    )
parse_frame-request_example =
    parse_frame-request tool eth broadcast station question (replicate 18 0) refl refl question-Fits
      question-IsIpv4 refl (omega arith) refl

parse_frame-reply_example :
    (out : ArpTool) × (parse_frame tool eth (arp_frame broadcast station statement [])
      ≡ ok (out, []))
    × (lookup_arp_cache out.arp_cache 0x02000000 ≡ some (11 ∷ 0 ∷ 0 ∷ 2 ∷ 0 ∷ 0 ∷ []))
    × (0x02000000 % 256 ≢ 0x0b000002 % 256
        → lookup_arp_cache out.arp_cache 0x0b000002 ≡ lookup_arp_cache cache 0x0b000002)
parse_frame-reply_example =
    parse_frame-reply tool eth broadcast station statement [] refl refl statement-Fits
      statement-IsIpv4 refl

abbrev neighbour : Router
neighbour = record { gifc = eth ∷ []; route_table = no_route ∷ []; arp_cache = no_address ∷ [] }

reply_bytes-learned_example :
    (out : Router) × (Frame.parse_frame neighbour eth
        (reply_bytes eth station question ++ replicate 18 0)
      ≡ ok (out, []))
    × (ArpCache.lookup_arp_cache out.arp_cache 0x0b000001 ≡ some (2 ∷ 0 ∷ 0 ∷ 0 ∷ 0 ∷ 2 ∷ []))
reply_bytes-learned_example =
    reply_bytes-learned neighbour eth eth station question (replicate 18 0) (omega arith) refl
      question-Fits refl (omega arith)

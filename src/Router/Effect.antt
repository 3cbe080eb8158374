-- ===== src/Router/Effect.antt =====
-- What `handle_frame` of router.c does to the state.
use project_and_training_3_n.Base.{
  ◌<◌, ◌≡◌, ◌≢◌, ◌⊎◌, inl, inr, refl, subst, ℕ, none, some, true, false, Bytes, ltb, ◌==◌, ==_iff,
  if◌then◌else◌, Bool, length, ok, err, Result, ◌>>=◌, ntohs, take, drop, ltb→le, ◌≤◌, ◌+◌, ◌-◌, [],
}
use project_and_training_3_n.Router.{Interface, Router, InAddr, eth_p_ipv4, eth_p_arp}
use project_and_training_3_n.Router.ArpCache.{lookup_arp_cache, add_to_arp_cache}
use project_and_training_3_n.Router.Cache.{lookup-add, lookup-add_others, IsFull}
use project_and_training_3_n.Router.Frame.{
  ArpHeader, arp_header, arp_bytes, arp_reply, arp_header_size, ethernet_header_size,
  forward_frame_payload_to, route, handle_arp, handle_ipv4, parse_frame, port, handle_frame,
}

-- The ARP header of a frame.
abbrev pub header_of : Bytes → ArpHeader
header_of frame = arp_header (take arp_header_size (drop ethernet_header_size frame))

-- The frame is an ARP reply, and `out` is `r` with its sender in the cache.
pub record Learned (r : Router) (frame : Bytes) (out : Router) : Type 0 where
  pub tagged : ntohs (drop 12 frame) ≡ eth_p_arp
  pub long : ethernet_header_size + arp_header_size ≤ length frame
  pub reply : (header_of frame).oper ≡ 2
  pub only_cache : out ≡ record r { arp_cache = out.arp_cache }
  pub found :
      lookup_arp_cache out.arp_cache (header_of frame).sender_pa ≡ some (header_of frame).sender_ha
  pub others :
      (ip : InAddr)
      → ip ≢ (header_of frame).sender_pa
      → (lookup_arp_cache r.arp_cache (header_of frame).sender_pa ≢ none) ⊎ ¬ IsFull r.arp_cache
      → lookup_arp_cache out.arp_cache ip ≡ lookup_arp_cache r.arp_cache ip

abbrev pub Effect : Router → Bytes → Router → Type 0
Effect r frame out = (out ≡ r) ⊎ Learned r frame out

module _ (r : Router) (frame : Bytes) where
  record Affects (call : Result (Router × Bytes)) : Type 0 where
    holds : (out : Router) (bytes : Bytes) → call ≡ ok (out, bytes) → Effect r frame out

  same-Affects : (bytes : Bytes) → Affects (ok (r, bytes))
  same-Affects bytes = record { holds = λ out bytes' e. inl (cc e) }

  only-writes : (written : Result Bytes) → Affects (written >>= λ out. ok (r, out))
  only-writes (err fault) = record { holds = λ out bytes e. absurd (cc e) }
  only-writes (ok out) = same-Affects out

  if-Affects :
      (b : Bool) {x y : Result (Router × Bytes)}
      → (b ≡ true → Affects x)
      → (b ≡ false → Affects y)
      → Affects (if b then x else y)
  if-Affects true kx ky = kx refl
  if-Affects false kx ky = ky refl

  learned-Affects :
      0 < length r.arp_cache
      → ntohs (drop 12 frame) ≡ eth_p_arp
      → ethernet_header_size + arp_header_size ≤ length frame
      → (header_of frame).oper ≡ 2
      → Affects (
          ok (
            record r {
              arp_cache =
                  add_to_arp_cache r.arp_cache
                    (header_of frame).sender_pa
                    (header_of frame).sender_ha;
            },
            [],
          ))
  learned-Affects some_ tagged long reply =
      let ah = header_of frame in
      record {
        holds = λ out bytes e. inr (
            subst (Learned r frame) (cc e) (record {
              tagged = tagged;
              long = long;
              reply = reply;
              only_cache = refl;
              found = lookup-add r.arp_cache ah.sender_pa ah.sender_ha some_;
              others = λ ip other room.
                  lookup-add_others r.arp_cache ah.sender_pa ip ah.sender_ha other room;
            }));
      }

  handle_arp-Affects :
      (ifc : Interface)
      → 0 < length r.arp_cache
      → ntohs (drop 12 frame) ≡ eth_p_arp
      → ethernet_header_size + arp_header_size ≤ length frame
      → Affects (handle_arp r ifc (header_of frame))
  unfolding handle_arp
  handle_arp-Affects ifc some_ tagged long =
      let ah = header_of frame in
      if-Affects (ah.oper == 1)
        (λ _.
          if-Affects (ah.target_pa == ifc.ip)
            (λ _. only-writes (
              forward_frame_payload_to ifc ah.sender_ha eth_p_arp (arp_bytes (arp_reply ifc ah))
                arp_header_size))
            (λ _. same-Affects []))
        (λ _.
          if-Affects (ah.oper == 2)
            (λ reply. learned-Affects some_ tagged long ((==_iff ah.oper 2).0 reply))
            (λ _. same-Affects []))

  parse_frame-Affects :
      (ifc : Interface) → 0 < length r.arp_cache → Affects (parse_frame r ifc frame)
  unfolding parse_frame handle_ipv4
  parse_frame-Affects ifc some_ =
      let tag = ntohs (drop 12 frame) in
      let packet = drop 14 frame in
      if-Affects (ltb (length frame) 14) (λ _. same-Affects [])
        (λ _.
          if-Affects (tag == eth_p_ipv4)
            (λ _.
              if-Affects (ltb (length packet) 20) (λ _. same-Affects [])
                (λ _. only-writes (route r (take 20 packet) (length packet - 20))))
            (λ _.
              if-Affects (tag == eth_p_arp)
                (λ tagged.
                  if-Affects (ltb (length frame) 42) (λ _. same-Affects [])
                    (λ long.
                      handle_arp-Affects ifc some_ ((==_iff tag eth_p_arp).0 tagged)
                        (ltb→le (length frame) 42 long)))
                (λ _. same-Affects [])))

-- A frame that is handled, by a router whose cache has an entry at all, leaves the state as it was,
-- or it is an ARP reply of 42 bytes or more and only the cache changes: a lookup of its sender's IP
-- address then finds its sender's MAC address, and if that IP address was in the cache or an entry
-- was free, a lookup of any other address finds what it found before.
pub handle_frame-Effect :
    (r : Router) (interface : ℕ) (frame : Bytes) {out : Router} {bytes : Bytes}
    → 0 < length r.arp_cache
    → handle_frame interface frame r ≡ ok (out, bytes)
    → Effect r frame out
unfolding handle_frame
handle_frame-Effect r interface frame {out} {bytes} some_ e =
    (if-Affects r frame (ltb (length r.gifc) interface)
        (λ _. record { holds = λ out' bytes' f. absurd (cc f) })
        (λ _. at_port (port r.gifc interface))).holds
      out bytes e
  where
    at_port :
        (found : Result Interface) → Affects r frame (found >>= λ ifc. parse_frame r ifc frame)
    at_port (err fault) = record { holds = λ out' bytes' f. absurd (cc f) }
    at_port (ok ifc) = parse_frame-Affects r frame ifc some_

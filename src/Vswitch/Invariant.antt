-- ===== src/Vswitch/Invariant.antt =====
-- The well-formed states of the switch: vswitch.c keeps them, and never leaves its arrays in them.
use mathlib.Core.Option.{some-injective}
use project_and_training_3_n.Base.{
  ℕ, zero, suc, ◌+◌, ◌≤◌, ◌<◌, ◌≡◌, ◌≢◌, ◌⊎◌, inl, inr, refl, sym, ap, ◌∙◌, Bool, true, false,
  Option, none, some, List, [], ◌∷◌, Bytes, ltb, Bool-cases, Option-cases, length, length-set, set,
  get_elem?, get_elem?_total, Result, ok, err, aborted, arith,
}
use project_and_training_3_n.Wire.{MacAddress}
use project_and_training_3_n.Vswitch.{Interface, MacTableEntry, MacTable, Vswitch}
use project_and_training_3_n.Vswitch.Table.{
  mac_hash, is_multicast_or_broadcast, learn_mac, lookup_mac,
}
use project_and_training_3_n.Vswitch.Forward.{interface_in_vlan, forward_frame, flood_frame}
use project_and_training_3_n.Vswitch.Frame.{
  frame_vlan, ethernet_header, port, forward, parse_frame, handle_frame, set_mac, handle_mac,
}
use project_and_training_3_n.Vswitch.Learning.{Knows-lookup}
use project_and_training_3_n.Vswitch.Tagging.{frame_vlan-member}

-- Interface `n` stands at index `n - 1`; the list is `gifc` from index `k` on.
abbrev pub Numbered : ℕ → List Interface → Type 0
Numbered k [] = Unit
Numbered k (ifc ∷ gifc) = (ifc.ifc_num ≡ suc k) × Numbered (suc k) gifc

-- How the interface number `n` is a member of a VLAN, `none` also where there is no such interface.
abbrev pub port_vlan : List Interface → ℕ → ℕ → Option Bool
port_vlan gifc n v = elim (port gifc n) [ ok ifc ↦ interface_in_vlan ifc v | err _ ↦ none ]

-- A valid entry at index `i` is an address of a single station that hashes there, on a port that is
-- a member of the entry's VLAN.
pub record IsLearned (gifc : List Interface) (i : ℕ) (e : MacTableEntry) : Type 0 where
  pub placed : e.valid ≡ true → mac_hash e.mac ≡ i
  pub single : e.valid ≡ true → is_multicast_or_broadcast e.mac ≡ false
  pub member : e.valid ≡ true → port_vlan gifc e.ifc_num e.vlan_id ≢ none

pub record IsValid (sw : Vswitch) : Type 0 where
  pub numbered : Numbered 0 sw.gifc
  pub learned : (i : ℕ) → IsLearned sw.gifc i (sw.mac_table i)

get_elem?-Numbered :
    (gifc : List Interface) (k i : ℕ) {ifc : Interface}
    → Numbered k gifc
    → get_elem? gifc i ≡ some ifc
    → ifc.ifc_num ≡ suc (k + i)
get_elem?-Numbered [] k i v e = absurd (cc e)
get_elem?-Numbered (x ∷ gifc) k zero v e = ground arith
get_elem?-Numbered (x ∷ gifc) k (suc i) v e = omega (arith, get_elem?-Numbered gifc (suc k) i v.1 e)

pub port-Numbered :
    (gifc : List Interface) (n : ℕ) {ifc : Interface}
    → Numbered 0 gifc
    → port gifc n ≡ ok ifc
    → ifc.ifc_num ≡ n
unfolding port
port-Numbered gifc zero v e = absurd (cc e)
port-Numbered gifc (suc i) {ifc} v e = ground (arith, get_elem?-Numbered gifc 0 i {ifc = ifc} v)

pub port_total :
    (gifc : List Interface) (n : ℕ)
    → 0 < n
    → n ≤ length gifc
    → (ifc : Interface) × (port gifc n ≡ ok ifc)
unfolding port
port_total gifc zero pos h = absurd (omega arith)
port_total gifc (suc i) pos h =
    let (ifc, e) = get_elem?_total gifc i (omega arith) in (ifc, rw (e, port) refl)

learn_mac-IsLearned :
    (gifc : List Interface) (now : ℕ) (t : MacTable) (mac : MacAddress) (n v i : ℕ)
    → port_vlan gifc n v ≢ none
    → ((j : ℕ) → IsLearned gifc j (t j))
    → IsLearned gifc i (learn_mac now t mac n v i)
unfolding learn_mac
learn_mac-IsLearned gifc now t mac n v i member old = record {
  placed = ground (arith, (old i).placed);
  single = ground (arith, (old i).single);
  member = ground (arith, (old i).member);
}

lookup_mac-IsLearned :
    (gifc : List Interface) (now : ℕ) (t : MacTable) (mac : MacAddress) (v i : ℕ)
    → ((j : ℕ) → IsLearned gifc j (t j))
    → IsLearned gifc i ((lookup_mac now t mac v).0 i)
unfolding lookup_mac
lookup_mac-IsLearned gifc now t mac v i old = record {
  placed = ground (arith, (old i).placed);
  single = ground (arith, (old i).single);
  member = ground (arith, (old i).member);
}

-- The interface that a lookup found is there.
lookup-port :
    (later v : ℕ) (sw : Vswitch) (mac : MacAddress) {n : ℕ}
    → IsValid sw
    → (lookup_mac later sw.mac_table mac v).1 ≡ some n
    → (dst : Interface) × (port sw.gifc n ≡ ok dst) × (interface_in_vlan dst v ≢ none)
lookup-port later v sw mac {n} ok_sw e =
    let k = Knows-lookup later sw.mac_table mac v e in
    let m = (ok_sw.learned (mac_hash mac)).member k.valid in
    at n (rw (k.interface, k.same_vlan) at m)
  where
    at :
        (n : ℕ)
        → port_vlan sw.gifc n v ≢ none
        → (dst : Interface) × (port sw.gifc n ≡ ok dst) × (interface_in_vlan dst v ≢ none)
    at n h = by_cases (port sw.gifc n) refl
      where
        by_cases :
            (r : Result Interface)
            → port sw.gifc n ≡ r
            → (dst : Interface) × (port sw.gifc n ≡ ok dst) × (interface_in_vlan dst v ≢ none)
        by_cases (ok dst) p = (dst, p, rw (p, port_vlan) at h)
        by_cases (err x) p = absurd ((rw (p, port_vlan) at h) refl)

-- How step 5 ends: the frame was flooded, or sent towards the port that the lookup found. No access
-- is out of bounds, and the table is as good as before.
pub record Forwarded (later : ℕ) (sw : Vswitch) (ifc : Interface) (frame : Bytes) (v : ℕ) (t : Bool)
    : Type 0 where
  pub table : MacTable
  pub out : Bytes
  pub result :
      forward later sw ifc frame v t ≡ ok (record { gifc = sw.gifc; mac_table = table }, out)
  pub keeps : (i : ℕ) → IsLearned sw.gifc i (table i)
  pub how :
      (out ≡ flood_frame ifc sw.gifc frame v t)
      ⊎ ((n : ℕ) × (dst : Interface) × (port sw.gifc n ≡ ok dst)
          × ((lookup_mac later sw.mac_table (ethernet_header frame).dst v).1 ≡ some n)
          × (out ≡ forward_frame ifc dst frame v t))

pub forward-Forwarded :
    (later : ℕ) (sw : Vswitch) (ifc : Interface) (frame : Bytes) (v : ℕ) (t : Bool)
    → IsValid sw
    → Forwarded later sw ifc frame v t
unfolding forward
forward-Forwarded later sw ifc frame v t h =
    elim (Bool-cases (is_multicast_or_broadcast (ethernet_header frame).dst)) [
      | inl group ↦ record {
        table = sw.mac_table;
        out = flood_frame ifc sw.gifc frame v t;
        result = rw group refl;
        keeps = h.learned;
        how = inl refl;
      }
      | inr single ↦
          elim (Option-cases (lookup_mac later sw.mac_table (ethernet_header frame).dst v).1) [
            | inl unknown ↦ record {
              table = (lookup_mac later sw.mac_table (ethernet_header frame).dst v).0;
              out = flood_frame ifc sw.gifc frame v t;
              result = rw (single, unknown) refl;
              keeps = λ i. lookup_mac-IsLearned sw.gifc later sw.mac_table _ v i h.learned;
              how = inl refl;
            }
            | inr (n, known) ↦
                let (dst, p, _) = lookup-port later v sw (ethernet_header frame).dst h known in
                record {
                  table = (lookup_mac later sw.mac_table (ethernet_header frame).dst v).0;
                  out = forward_frame ifc dst frame v t;
                  result = rw (single, known, p) refl;
                  keeps = λ i. lookup_mac-IsLearned sw.gifc later sw.mac_table _ v i h.learned;
                  how = inr (n, dst, p, known, refl);
                }
          ]
    ]

-- The state in which `parse_frame` forwards.
abbrev pub taught : ℕ → Vswitch → Interface → Bytes → ℕ → Vswitch
taught now sw ifc frame v = record {
  gifc = sw.gifc;
  mac_table = learn_mac now sw.mac_table (ethernet_header frame).src ifc.ifc_num v;
}

pub taught-IsValid :
    (now : ℕ) (sw : Vswitch) (ifc : Interface) (frame : Bytes) {v : ℕ} {t : Bool}
    → IsValid sw
    → port sw.gifc ifc.ifc_num ≡ ok ifc
    → frame_vlan ifc frame ≡ some (v, t)
    → IsValid (taught now sw ifc frame v)
taught-IsValid now sw ifc frame {v} {t} h here e =
    let m : interface_in_vlan ifc v ≢ none = rw (frame_vlan-member ifc frame e) (λ q. cc q) in
    record {
      numbered = h.numbered;
      learned = λ i.
          learn_mac-IsLearned sw.gifc now sw.mac_table _ ifc.ifc_num v i (rw (here, port_vlan) m)
            h.learned;
    }

-- On every frame that comes in on one of its interfaces, `parse_frame` returns: it neither aborts
-- nor reads or writes outside its arrays. It keeps the state well-formed and the interfaces as
-- they are.
pub parse_frame-IsValid :
    (now later : ℕ) (sw : Vswitch) (ifc : Interface) (frame : Bytes)
    → IsValid sw
    → port sw.gifc ifc.ifc_num ≡ ok ifc
    → (r : Vswitch × Bytes) × (parse_frame now later sw ifc frame ≡ ok r)
      × IsValid r.0
      × (r.0.gifc ≡ sw.gifc)
unfolding parse_frame
parse_frame-IsValid now later sw ifc frame h here = elim (Option-cases (frame_vlan ifc frame)) [
  | inl dropped ↦ ((sw, []), rw (dropped, parse_frame) refl, h, refl)
  | inr ((v, t), e) ↦
      let valid = taught-IsValid now sw ifc frame h here e in
      let f = forward-Forwarded later (taught now sw ifc frame v) ifc frame v t valid in
      (
        (record { gifc = sw.gifc; mac_table = f.table }, f.out),
        rw (e, parse_frame) f.result,
        record { numbered = h.numbered; learned = f.keeps },
        refl,
      )
]

pub handle_frame-IsValid :
    (now later n : ℕ) (frame : Bytes) (sw : Vswitch)
    → IsValid sw
    → 0 < n
    → ((length sw.gifc < n) × (handle_frame now later n frame sw ≡ err aborted))
      ⊎ ((r : Vswitch × Bytes) × (handle_frame now later n frame sw ≡ ok r) × IsValid r.0)
unfolding handle_frame
handle_frame-IsValid now later n frame sw h pos = elim (Bool-cases (ltb (length sw.gifc) n)) [
  | inl large ↦ inl (ground arith, rw large refl)
  | inr small ↦
      let (ifc, p) = port_total sw.gifc n pos (ground arith) in
      let num = port-Numbered sw.gifc n h.numbered p in
      let (r, e, valid, _) = parse_frame-IsValid now later sw ifc frame h (rw num p) in
      inr (r, rw (small, p) e, valid)
]

-- Only the address of an interface changes.
interface_in_vlan-mac :
    (ifc : Interface) (mac : MacAddress) (v : ℕ)
    → interface_in_vlan (record ifc { mac = mac }) v ≡ interface_in_vlan ifc v
unfolding interface_in_vlan
interface_in_vlan-mac ifc mac v = refl

set-Numbered :
    (gifc : List Interface) (k i : ℕ) (mac : MacAddress) {ifc : Interface}
    → get_elem? gifc i ≡ some ifc
    → Numbered k gifc
    → Numbered k (set gifc i (record ifc { mac = mac }))
set-Numbered [] k i mac e v = v
set-Numbered (x ∷ gifc) k zero mac e v = (ground arith, v.1)
set-Numbered (x ∷ gifc) k (suc i) mac e v = (v.0, set-Numbered gifc (suc k) i mac e v.1)

set-port_vlan :
    (gifc : List Interface) (i n : ℕ) (mac : MacAddress) (v : ℕ) {ifc : Interface}
    → get_elem? gifc i ≡ some ifc
    → port_vlan (set gifc i (record ifc { mac = mac })) n v ≡ port_vlan gifc n v
unfolding port
set-port_vlan gifc i zero mac v e = refl
set-port_vlan [] i (suc n) mac v e = refl
set-port_vlan (x ∷ gifc) zero (suc zero) mac v {ifc} e =
    interface_in_vlan-mac ifc mac v ∙ ap (λ q. interface_in_vlan q v) (sym (some-injective _ _ e))
set-port_vlan (x ∷ gifc) zero (suc (suc n)) mac v e = refl
set-port_vlan (x ∷ gifc) (suc i) (suc zero) mac v e = refl
set-port_vlan (x ∷ gifc) (suc i) (suc (suc n)) mac v e = set-port_vlan gifc i (suc n) mac v e

-- An address from the loop: `handle_mac` aborts exactly if there is no interface of that number,
-- and otherwise returns with a well-formed state and as many interfaces.
pub handle_mac-IsValid :
    (n : ℕ) (mac : MacAddress) (sw : Vswitch)
    → IsValid sw
    → 0 < n
    → ((length sw.gifc < n) × (handle_mac n mac sw ≡ err aborted))
      ⊎ ((r : Vswitch) × (handle_mac n mac sw ≡ ok r)
          × IsValid r
          × (length r.gifc ≡ length sw.gifc))
unfolding handle_mac
handle_mac-IsValid zero mac sw h pos = absurd (omega arith)
handle_mac-IsValid (suc i) mac sw h pos = elim (Bool-cases (ltb (length sw.gifc) (suc i))) [
  | inl large ↦ inl (ground arith, rw large refl)
  | inr small ↦
      let (ifc, p) = get_elem?_total sw.gifc i (ground arith) in
      inr (
        record sw { gifc = set sw.gifc i (record ifc { mac = mac }) },
        rw (small, p, set_mac) refl,
        record {
          numbered = set-Numbered sw.gifc 0 i mac p h.numbered;
          learned = λ j. record {
            placed = (h.learned j).placed;
            single = (h.learned j).single;
            member = λ q.
                rw (set-port_vlan sw.gifc i (sw.mac_table j).ifc_num mac (sw.mac_table j).vlan_id p)
                  ((h.learned j).member q);
          };
        },
        length-set sw.gifc i _,
      )
]

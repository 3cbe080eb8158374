-- ===== src/Harness/Flooding.antt =====
-- What a test with `expect_multicast` says of a program, and that the VLAN switch passes it.
use project_and_training_3_n.Base.{
  ℕ, suc, ◌+◌, ◌-◌, ◌^◌, ◌≤◌, ◌<◌, ◌≡◌, ◌≢◌, inl, inr, refl, sym, ap, ◌∙◌, Bool, true, false, not,
  List, [], ◌∷◌, ◌++◌, Bytes, ◌==◌, Bool-cases, Option-cases, length, equal, equal_iff, ==_iff,
  take, bit, Result, ok, All, All-map, All-get_elem?, append-nil, subst, arith, some,
}
use project_and_training_3_n.Wire.{header_size}
use project_and_training_3_n.Wire.Delivery.{Message, types}
use project_and_training_3_n.Vswitch.{Interface}
use project_and_training_3_n.Vswitch.Forward.{interface_in_vlan, retag, flood_frame}
use project_and_training_3_n.Vswitch.Invariant.{Numbered}
use project_and_training_3_n.Vswitch.Isolation.{receivers, IsDelivery, flood_frame-Delivers}
use project_and_training_3_n.Harness.{Wait, Harness, child_buf_size}
use project_and_training_3_n.Harness.Expect.{ℤ, pos, fits_frame}
use project_and_training_3_n.Harness.Masks.{mask_of, IsDistinct, IsPort}
use project_and_training_3_n.Harness.Receive.{Outcome, done, attempts, trecv}
use project_and_training_3_n.Harness.Stream.{IsLive, IsSized, Ready}
use project_and_training_3_n.Harness.Refinement.{scan, Means, ends, faults, trecv-scan}
use project_and_training_3_n.Harness.Multicast.{multicast, multicast-IsLocal}
use project_and_training_3_n.Harness.Masked.{Seen, scan-Seen, scan-mask_of}

Means-done :
    {C : Type 0} {o : Outcome C} {r : Result (ℕ × C × List Message)} {code : ℕ} {cls : C}
    {h : Harness} {ws : List Wait}
    → Means o r
    → o ≡ done code cls h ws
    → (ms : List Message) × (r ≡ ok (code, cls, ms))
Means-done (ends code cls h ws ms ready) e = (ms, cc)
Means-done (faults f) e = absurd (cc e)

Means-ok :
    {C : Type 0} {o : Outcome C} {r : Result (ℕ × C × List Message)} {code : ℕ} {cls : C}
    {ms : List Message}
    → Means o r
    → r ≡ ok (code, cls, ms)
    → (s : Harness × List Wait) × (o ≡ done code cls s.0 s.1) × Ready s.0 s.1 ms
Means-ok {ms = left} (ends code cls h ws ms ready) e =
    let same : ms ≡ left = cc in ((h, ws), cc, subst (Ready h ws) same ready)
Means-ok (faults f) e = absurd (cc e)

-- Let the child write whole messages of a size that fits, readable until they are all there. If
-- `trecv` with `expect_multicast` returns 0, then the child has sent the frame on every interface of
-- the mask, and no bit is left in the mask.
pub trecv-Seen :
    (frame : Bytes) (len : ℤ) (skip all : ℕ) (h : Harness) (ws : List Wait) (ms : List Message)
    {all' : ℕ} {h' : Harness} {ws' : List Wait}
    → All IsSized ms
    → Ready h ws ms
    → trecv skip (multicast frame len) all h ws ≡ done 0 all' h' ws'
    → (all' ≡ 0) × ((i : ℕ) → bit i all ≡ 1 → Seen frame len i ms)
trecv-Seen frame len skip all h ws ms v r e =
    let (rest, same) =
      Means-done
        (trecv-scan (multicast frame len) (multicast-IsLocal frame len) skip all h ws ms v r) e in
    scan-Seen frame len ms (attempts skip) all same

pub trecv-multicast :
    (frame : Bytes) (len : ℤ) (skip : ℕ) (h : Harness) (ws : List Wait) (ms rest : List Message)
    → All IsSized (ms ++ rest)
    → Ready h ws (ms ++ rest)
    → 0 < length ms
    → length ms ≤ suc skip
    → skip < 2 ^ 32 - 1
    → All IsPort (types ms)
    → IsDistinct (types ms)
    → All (λ m. fits_frame m.body (length m.body) frame len ≡ true) ms
    → (s : Harness × List Wait) × (trecv skip (multicast frame len) (mask_of (types ms)) h ws
        ≡ done 0 0 s.0 s.1)
      × Ready s.0 s.1 rest
trecv-multicast frame len skip h ws ms rest v r some_ few small p d f =
    let enough : attempts skip ≡ suc skip = ground arith in
    Means-ok
      (trecv-scan (multicast frame len) (multicast-IsLocal frame len) skip (mask_of (types ms)) h ws
        (ms ++ rest) v r)
      (ap (λ n. scan (multicast frame len) n (mask_of (types ms)) (ms ++ rest)) enough
        ∙ scan-mask_of frame len ms rest (suc skip) some_ few p d f)

-- The receivers' numbers lie between those of the list.
receivers-above :
    (src : Interface) (gifc : List Interface) (v k : ℕ)
    → Numbered k gifc
    → All (λ t. (k < t) × (t ≤ k + length gifc)) (receivers src gifc v)
unfolding receivers
receivers-above src [] v k n = tt
receivers-above src (dst ∷ gifc) v k (num, n) =
    let rest : All (λ t. (k < t) × (t ≤ k + suc (length gifc))) (receivers src gifc v) =
      All-map (receivers src gifc v) (λ t b. omega (arith, b))
        (receivers-above src gifc v (suc k) n) in
    elim (Option-cases (interface_in_vlan dst v)) [
      | inl out ↦ rw (receivers, out) rest
      | inr (kind, e) ↦ elim (Bool-cases (src.ifc_num == dst.ifc_num)) [
        | inl back ↦ rw (receivers, e, back) rest
        | inr on ↦ rw (receivers, e, on) (omega (arith, num), rest)
      ]
    ]

receivers-IsDistinct :
    (src : Interface) (gifc : List Interface) (v k : ℕ)
    → Numbered k gifc
    → IsDistinct (receivers src gifc v)
unfolding receivers
receivers-IsDistinct src [] v k n = tt
receivers-IsDistinct src (dst ∷ gifc) v k (num, n) =
    let rest = receivers-IsDistinct src gifc v (suc k) n in
    let other : All (λ t. t ≢ dst.ifc_num) (receivers src gifc v) =
      All-map (receivers src gifc v) (λ t b e. absurd (omega (arith, b, e, num)))
        (receivers-above src gifc v (suc k) n) in
    elim (Option-cases (interface_in_vlan dst v)) [
      | inl out ↦ rw (receivers, out) rest
      | inr (kind, e) ↦ elim (Bool-cases (src.ifc_num == dst.ifc_num)) [
        | inl back ↦ rw (receivers, e, back) rest
        | inr on ↦ rw (receivers, e, on) (other, rest)
      ]
    ]

deliveries-IsSized :
    (frame : Bytes) (ms : List Message)
    → length frame + header_size < 2 ^ 16
    → All IsPort (types ms)
    → All (λ m. m.body ≡ frame) ms
    → All IsSized ms
unfolding types
deliveries-IsSized frame [] small p b = tt
deliveries-IsSized frame (m ∷ ms) small p b =
    (omega (arith, p.0, ap length b.0), deliveries-IsSized frame ms small p.1 b.1)

length-types : (ms : List Message) → length (types ms) ≡ length ms
unfolding types
length-types [] = refl
length-types (m ∷ ms) = ap suc (length-types ms)

kind-same : (k t : Bool) → k ≢ not t → k ≡ t
kind-same k t ne = ground arith

retag-same : (t : Bool) (v : ℕ) (frame : Bytes) → retag t t v frame ≡ frame
unfolding retag
retag-same true v frame = refl
retag-same false v frame = refl

equal-same : (xs : Bytes) → equal xs xs ≡ true
equal-same xs = (equal_iff xs xs).1 refl

all-fits : (frame : Bytes) → fits_frame frame (length frame) frame (pos (length frame)) ≡ true
unfolding fits_frame
all-fits frame =
    rw (equal-same (take (length frame) frame))
      (ground (arith, (==_iff (length frame) (length frame)).1 refl))

module _ (src : Interface) (gifc : List Interface) (frame : Bytes) (v : ℕ) (t : Bool) where
  -- A delivery to a port that wants the header as it is carries the frame itself.
  IsDelivery-body :
      (m : Message)
      → All (λ dst. interface_in_vlan dst v ≢ some (not t)) gifc
      → IsDelivery src gifc frame v t m
      → m.body ≡ frame
  IsDelivery-body m alike d =
      let wants : interface_in_vlan d.dst v ≢ some (not t) =
        All-get_elem? (λ dst. interface_in_vlan dst v ≢ some (not t)) gifc d.place alike d.exists in
      let kind : d.kind ≡ t = kind-same d.kind t (λ e. wants (d.member ∙ ap some e)) in
      d.body_is ∙ rw kind (retag-same t v frame)

  body-fits :
      (m : Message)
      → m.body ≡ frame
      → fits_frame m.body (length m.body) frame (pos (length frame)) ≡ true
  unfolding fits_frame
  body-fits m e = rw e (all-fits frame)

-- A switch of fewer than 32 ports, numbered from 1, that floods a frame passes the test of it: let
-- every port in the VLAN carry its frames as the frame came, one port or more beside the sender's be
-- in it, and the child's output be what `flood_frame` writes, readable until it is all there. Then `trecv` with `expect_multicast`, the mask of the other
-- ports of the VLAN and leave to skip all but one message returns 0, with no byte left.
pub trecv-flood_frame :
    (src : Interface) (gifc : List Interface) (frame : Bytes) (v : ℕ) (t : Bool) (skip : ℕ)
    (h : Harness) (ws : List Wait)
    → Numbered 0 gifc
    → length gifc < 32
    → All (λ dst. interface_in_vlan dst v ≢ some (not t)) gifc
    → length frame + header_size < 2 ^ 16
    → h.child_buf ++ h.pipe ≡ flood_frame src gifc frame v t
    → length h.child_buf + length h.behind ≡ child_buf_size
    → All IsLive ws
    → length h.pipe ≤ length ws
    → 0 < length (receivers src gifc v)
    → length (receivers src gifc v) ≤ suc skip
    → skip < 2 ^ 32 - 1
    → (s : Harness × List Wait) × (trecv skip
          (multicast frame (pos (length frame)))
          (mask_of (receivers src gifc v))
          h
          ws
        ≡ done 0 0 s.0 s.1)
      × Ready s.0 s.1 []
trecv-flood_frame src gifc frame v t skip h ws n few alike small out room live enough some_ fits
      last =
    let d = flood_frame-Delivers src frame v t gifc in
    let ports : All IsPort (types d.messages) =
      subst (All IsPort) (sym d.to_whom) (
        All-map (receivers src gifc v) (λ u b. omega (arith, b))
          (receivers-above src gifc v 0 n)) in
    let apart : IsDistinct (types d.messages) =
      subst IsDistinct (sym d.to_whom) (receivers-IsDistinct src gifc v 0 n) in
    let bodies : All (λ m. m.body ≡ frame) d.messages =
      All-map d.messages (λ m. IsDelivery-body src gifc frame v t m alike) d.each in
    let count : length (receivers src gifc v) ≡ length d.messages =
      ap length (sym d.to_whom) ∙ length-types d.messages in
    let same : d.messages ++ [] ≡ d.messages = append-nil d.messages in
    subst
      (λ mask.
        (s : Harness × List Wait) × (trecv skip (multicast frame (pos (length frame))) mask h ws
          ≡ done 0 0 s.0 s.1)
        × Ready s.0 s.1 [])
      (ap mask_of d.to_whom)
      (trecv-multicast frame (pos (length frame)) skip h ws d.messages []
        (subst (All IsSized) (sym same) (deliveries-IsSized frame d.messages small ports bodies))
        (subst (Ready h ws) (sym same)
          (record { stream = out ∙ d.written; room = room; live = live; enough = enough }))
        (omega arith) (omega arith) last ports apart
        (All-map d.messages (body-fits src gifc frame v t) bodies))

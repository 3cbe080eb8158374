-- ===== src/Router/Running.antt =====
-- router.c in its main loop.
use project_and_training_3_n.Base.{
  ℕ, zero, suc, ◌≡◌, refl, sym, inl, inr, Bool, true, false, subst, List, [], ◌++◌, Bytes, ltb,
  if◌then◌else◌, Option-cases, length, length-set, get_elem?, All, Result, ok, err, Fault, aborted,
  ◌>>=◌,
}
use project_and_training_3_n.Wire.{MacAddress}
use project_and_training_3_n.Wire.Loop.{LoopState, loop}
use project_and_training_3_n.Wire.Safety.{Ends, Keeps, loop-Ends}
use project_and_training_3_n.Router.{Interface, Router}
use project_and_training_3_n.Router.Frame.{handle_frame, set_mac, handle_mac}
use project_and_training_3_n.Router.Args.{start}
use project_and_training_3_n.Router.Command.{handle_control, Running, handlers}
use project_and_training_3_n.Router.Invariant
use project_and_training_3_n.Router.Invariant.{
  IsValid, KeepsState, Points, handle_frame-KeepsState, handle_control-Keeps, start-Keeps,
}

-- Any fault.
abbrev pub Faulty : Fault → Type 0
Faulty x = Unit

length-set_mac :
    (gifc : List Interface) (n : ℕ) (mac : MacAddress)
    → Ends Faulty (λ out. length out ≡ length gifc) (set_mac gifc n mac)
unfolding set_mac
length-set_mac gifc zero mac = tt
length-set_mac gifc (suc i) mac = elim (Option-cases (get_elem? gifc i)) [
  | inl missing ↦ rw (missing, set_mac) tt
  | inr (ifc, found) ↦ rw (found, set_mac) (length-set gifc i (record ifc { mac = mac }))
]

handle_mac-Ends :
    (r : Router) (n : ℕ) (mac : MacAddress) → IsValid r → Ends Faulty IsValid (handle_mac n mac r)
unfolding handle_mac
handle_mac-Ends r n mac v = on_test (ltb (length r.gifc) n)
  where
    on_set :
        (call : Result (List Interface))
        → Ends Faulty (λ out. length out ≡ length r.gifc) call
        → Ends Faulty IsValid (call >>= λ gifc. ok (record r { gifc = gifc }))
    on_set (err fault) e = tt
    on_set (ok gifc) e = record {
      pointing = subst (λ k. All (Points k) r.route_table) (sym e) v.pointing;
      route_size = v.route_size;
      cache_size = v.cache_size;
    }

    on_test :
        (b : Bool)
        → Ends Faulty IsValid (
            if b
            then err aborted
            else (set_mac r.gifc n mac >>= λ gifc. ok (record r { gifc = gifc })))
    on_test true = tt
    on_test false = on_set (set_mac r.gifc n mac) (length-set_mac r.gifc n mac)

frame-Ends :
    (s : Running) (call : Result (Router × Bytes))
    → KeepsState call
    → Ends Faulty
        (λ (s' : Running). IsValid s'.router)
        (call >>= λ (r, bytes). ok (record { router = r; out = s.out ++ bytes }))
frame-Ends s (err fault) k = tt
frame-Ends s (ok (r, bytes)) k = k.holds r bytes refl

control-Ends :
    (s : Running) (call : Result Router)
    → Invariant.Keeps call
    → Ends Faulty (λ (s' : Running). IsValid s'.router) (call >>= λ r. ok (record s { router = r }))
control-Ends s (err fault) k = tt
control-Ends s (ok r) k = k.holds r refl

mac-Ends :
    (s : Running) (call : Result Router)
    → Ends Faulty IsValid call
    → Ends Faulty (λ (s' : Running). IsValid s'.router) (call >>= λ r. ok (record s { router = r }))
mac-Ends s (err fault) k = tt
mac-Ends s (ok r) k = k

handlers-Keeps : Keeps handlers Faulty (λ s. IsValid s.router)
unfolding handlers
handlers-Keeps = record {
  frame = λ n body s pos v.
      frame-Ends s (handle_frame n body s.router) (handle_frame-KeepsState s.router n body v);
  control = λ body s v.
      control-Ends s (handle_control body s.router) (handle_control-Keeps s.router body v);
  mac =
      λ n addr s pos v. mac-Ends s (handle_mac n addr s.router) (handle_mac-Ends s.router n addr v);
}

-- A router that `main` started is well-formed whenever its main loop returns, whatever bytes it
-- read and however the reads cut them: 256 routes, each valid one on an interface that exists, and
-- 256 cache entries.
pub loop-IsValid :
    (args chunks : List Bytes) (r : Router)
    → start args ≡ ok r
    → Ends Faulty
        (λ (st : LoopState Running). IsValid st.app.router)
        (loop handlers chunks (record { router = r; out = [] }))
loop-IsValid args chunks r started =
    loop-Ends handlers Faulty _ tt handlers-Keeps chunks (record { router = r; out = [] })
      ((start-Keeps args).holds r started)

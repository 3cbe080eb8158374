-- ===== src/Driver/Session.antt =====
-- network-driver.c and a child whose main loop is that of loop.c.
use project_and_training_3_n.Base.{◌≡◌, ◌⊎◌, List, [], Bytes, false, ok, ◌>>=◌, All}
use project_and_training_3_n.Wire.Loop.{Handlers, loop}
use project_and_training_3_n.Wire.Delivery.{Message, Fits, deliver}
use project_and_training_3_n.Driver.{Driver}

-- The child made the calls for these messages and no others, if they fit the format.
abbrev pub Answers : {S : Type 0} → Handlers S → List Bytes → List Message → S → Type 0
Answers {S} h chunks ms s =
    (¬ All Fits ms)
    ⊎ (loop h chunks s
        ≡ (deliver h ms false s >>= λ r. ok (record { buf = []; have_mac = r.0; app = r.1 })))

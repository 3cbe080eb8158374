-- ===== src/Hub/Tests.antt =====
-- The hub with two interfaces: their addresses, a frame, and a command.
use project_and_training_3_n.Base.{
  ◌≡◌, refl, List, [], ◌∷◌, ◌++◌, Bytes, ok, err, true, aborted, htons,
}
use project_and_training_3_n.Libc.{strchr}
use project_and_training_3_n.Wire.{print}
use project_and_training_3_n.Wire.Loop.{loop, run, receive, drain, consume, dispatch, deliver_macs}
use project_and_training_3_n.Router.Command.{command_text}
use project_and_training_3_n.Hub.{
  command_is, ignored, handle_frame, handle_control, port, fwd_frame, start, handle_mac, set_mac,
  Running, handlers,
}

abbrev input : List Bytes
input =
    (htons 16 ++ (htons 0 ++ (2 ∷ 0 ∷ 0 ∷ 0 ∷ 0 ∷ 1 ∷ 2 ∷ 0 ∷ 0 ∷ 0 ∷ 0 ∷ 2 ∷ [])))
    ∷ (htons 6 ++ (htons 1 ++ (7 ∷ 8 ∷ [])))
    ∷ (htons 6 ++ (htons 0 ++ (b'x' ∷ b'\n' ∷ [])))
    ∷ []

abbrev at_end : Running
at_end = record {
  gifc =
      record { mac = 2 ∷ 0 ∷ 0 ∷ 0 ∷ 0 ∷ 1 ∷ []; ifc_num = 1 }
      ∷ record { mac = 2 ∷ 0 ∷ 0 ∷ 0 ∷ 0 ∷ 2 ∷ []; ifc_num = 2 }
      ∷ [];
  out = print (command_is ++ (b'x' ∷ ignored));
}

-- The frame goes nowhere, and the command is answered.
hub_runs :
    (loop handlers input (record { gifc = start 1 2; out = [] })
      ≡ ok (record { buf = []; have_mac = true; app = at_end }))
unfolding loop run receive drain consume dispatch deliver_macs handlers handle_mac set_mac
    handle_frame port fwd_frame handle_control command_text strchr start
hub_runs = refl

-- A command is written without its last byte, and an interface that does not exist aborts.
answered :
    (handle_control (b'x' ∷ b'\n' ∷ []) ≡ ok (print (command_is ++ (b'x' ∷ ignored))))
    × (handle_frame 2 (7 ∷ 8 ∷ []) (start 1 2) ≡ ok [])
    × (handle_frame 3 (7 ∷ 8 ∷ []) (start 1 2) ≡ err aborted)
unfolding handle_control command_text strchr handle_frame port fwd_frame start
answered = (refl, refl, refl)

-- ===== src/Driver/Tests.antt =====
-- The driver on concrete rounds.
use project_and_training_3_n.Base.{ok, ◌≡◌, refl, none, some, List, [], ◌∷◌, ◌++◌, Bytes, drop, All}
use project_and_training_3_n.Libc.{strchr}
use project_and_training_3_n.Wire.Delivery.{Message, encode_all}
use project_and_training_3_n.Driver.Parcels.{each}
use project_and_training_3_n.Driver.Lines.{typed_text, Place}
use project_and_training_3_n.Driver.Waiting.{IsJob}
use project_and_training_3_n.Driver.Begun.{pending}
use project_and_training_3_n.Driver.Child.{Arrived, address_list, rounds-encode_all}
use project_and_training_3_n.Driver.Outgoing.{Passed}
use project_and_training_3_n.Driver.Network.{rounds-Passed}
use project_and_training_3_n.Wire.Loop.{Handlers}
use project_and_training_3_n.Driver.Parcels.{each}
use project_and_training_3_n.Driver.Lines.{typed_text}
use project_and_training_3_n.Driver.Fuel.{Settled, round-Settled}
use project_and_training_3_n.Driver.{interface, Driver, elsewhere, frame, Ready, next, unbounded}
use project_and_training_3_n.Driver.Round.{
  read_command, finish_read, write_job, write_child, write_frame, write_tun, command_message,
  start_command, read_child, start_write, handle_bufin, insert_tags, frame_message, receive_frame,
  queue_frame, read_tuns, read_network, round, rounds, mac_message, start,
}

abbrev macs : List Bytes
macs = (1 ∷ 2 ∷ 3 ∷ 4 ∷ 5 ∷ 6 ∷ []) ∷ (1 ∷ 2 ∷ 3 ∷ 4 ∷ 5 ∷ 7 ∷ []) ∷ []

-- A line is typed, the child writes a text and a frame for the second interface, and the first
-- receives a frame with a VLAN tag.
abbrev first_round : Ready
first_round = record {
  stdin = some (b'h' ∷ b'i' ∷ b'\n' ∷ []);
  child_stdin = none;
  tun_out = none;
  child_stdout = some (0 ∷ 6 ∷ 0 ∷ 0 ∷ b'o' ∷ b'k' ∷ 0 ∷ 7 ∷ 0 ∷ 2 ∷ 21 ∷ 22 ∷ 23 ∷ 0 ∷ []);
  tun_in =
      some (frame (1 ∷ 2 ∷ 3 ∷ 4 ∷ 5 ∷ 6 ∷ 7 ∷ 8 ∷ 9 ∷ 10 ∷ 11 ∷ 12 ∷ 13 ∷ []) ((33024, 5) ∷ []))
      ∷ some elsewhere
      ∷ [];
}

-- The child takes the line and two bytes of the frame are sent.
abbrev second_round : Ready
second_round = record {
  stdin = none;
  child_stdin = some 100;
  tun_out = some 2;
  child_stdout = none;
  tun_in = [];
}

abbrev tagged_frame : Bytes
tagged_frame =
    0 ∷ 21 ∷ 0 ∷ 1 ∷ 1 ∷ 2 ∷ 3 ∷ 4 ∷ 5 ∷ 6 ∷ 7 ∷ 8 ∷ 9 ∷ 10 ∷ 11 ∷ 12 ∷ 129 ∷ 0 ∷ 0 ∷ 5 ∷ 13 ∷ []

abbrev after_two : Driver
after_two = record {
  bufin = 0 ∷ 7 ∷ 0 ∷ 2 ∷ 21 ∷ 22 ∷ 23 ∷ 0 ∷ [];
  current_write = some (record { to = 1; off = 6; left = 1 });
  cmd_line = [];
  gifc = tagged_frame ∷ [] ∷ [];
  current_read = some (record { from = interface 0; off = 0; rest = tagged_frame });
  from_user = b'h' ∷ b'i' ∷ b'\n' ∷ [];
  to_child =
      0 ∷ 16 ∷ 0 ∷ 0 ∷ 1 ∷ 2 ∷ 3 ∷ 4 ∷ 5 ∷ 6 ∷ 1 ∷ 2 ∷ 3 ∷ 4 ∷ 5 ∷ 7 ∷ 0 ∷ 7 ∷ 0 ∷ 0 ∷ b'h' ∷ b'i'
      ∷ b'\n' ∷ [];
  from_child = 0 ∷ 6 ∷ 0 ∷ 0 ∷ b'o' ∷ b'k' ∷ 0 ∷ 7 ∷ 0 ∷ 2 ∷ 21 ∷ 22 ∷ 23 ∷ 0 ∷ [];
  sent = (1, 21 ∷ 22 ∷ []) ∷ [];
  printed = b'o' ∷ b'k' ∷ [];
}

two_rounds : rounds (first_round ∷ second_round ∷ []) (start macs) ≡ next after_two
unfolding rounds round read_command finish_read write_job write_child write_frame write_tun
    command_message start_command read_child start_write handle_bufin insert_tags frame_message
    receive_frame queue_frame read_tuns read_network mac_message start strchr
two_rounds = refl

rounds-encode_all_example :
    (ms : List Message) × (more : Bytes) × All
      (IsJob (λ i body. Arrived i body (first_round ∷ second_round ∷ [])))
      ms
    × (after_two.to_child ++ pending after_two.current_read ≡ encode_all (address_list macs ∷ ms))
    × (after_two.from_user ≡ each typed_text ms ++ more)
    × Place after_two.cmd_line more after_two.current_read
rounds-encode_all_example =
    rounds-encode_all macs (first_round ∷ second_round ∷ []) after_two (refl, (refl, tt)) two_rounds

rounds-Passed_example : Passed after_two
rounds-Passed_example = rounds-Passed macs (first_round ∷ second_round ∷ []) after_two two_rounds

-- One frame is sent, and a text and a part of a text are behind it.
abbrev texts : Driver
texts = record after_two {
  bufin = 0 ∷ 6 ∷ 0 ∷ 0 ∷ b'o' ∷ b'k' ∷ 0 ∷ 5 ∷ 0 ∷ 0 ∷ b'!' ∷ 0 ∷ 5 ∷ 0 ∷ [];
  current_write = none;
}

-- The same, with a text of size 0 in place of the part of a text.
abbrev endless_texts : Driver
endless_texts = record texts { bufin = 0 ∷ 6 ∷ 0 ∷ 0 ∷ b'o' ∷ b'k' ∷ 0 ∷ 0 ∷ 0 ∷ 0 ∷ [] }

-- The texts of `texts` end.
texts_end :
    handle_bufin 15 texts
    ≡ next (record texts {
      bufin = 0 ∷ 5 ∷ 0 ∷ [];
      printed = texts.printed ++ (b'o' ∷ b'k' ∷ b'!' ∷ []);
    })
unfolding handle_bufin strchr
texts_end = refl

abbrev third_round : Ready
third_round = record {
  stdin = none;
  child_stdin = some 3;
  tun_out = some 9;
  child_stdout = some (b'!' ∷ []);
  tun_in = none ∷ none ∷ [];
}

abbrev after_three : Driver
after_three = record after_two {
  bufin = 0 ∷ b'!' ∷ [];
  current_write = none;
  current_read = some (record { from = interface 0; off = 3; rest = drop 3 tagged_frame });
  to_child = after_two.to_child ++ 0 ∷ 21 ∷ 0 ∷ [];
  from_child = after_two.from_child ++ b'!' ∷ [];
  sent = (1, 21 ∷ 22 ∷ []) ∷ (1, 23 ∷ []) ∷ [];
}

third : round third_round after_two ≡ next after_three
unfolding rounds round read_command finish_read write_job write_child write_frame write_tun
    command_message start_command read_child start_write handle_bufin insert_tags frame_message
    receive_frame queue_frame read_tuns read_network mac_message start strchr
third = refl

round-Settled_example : Settled after_three
round-Settled_example = round-Settled third_round after_two after_three third

-- A message that says that it has two bytes: nothing limits its text.
short_text : handle_bufin 4 (record texts { bufin = 0 ∷ 2 ∷ 0 ∷ 0 ∷ [] }) ≡ unbounded
unfolding handle_bufin
short_text = refl

-- A line is typed, and the child takes it.
abbrev typed_round : Ready
typed_round = record {
  stdin = some (b'h' ∷ b'i' ∷ b'\n' ∷ []);
  child_stdin = none;
  tun_out = none;
  child_stdout = none;
  tun_in = [];
}

abbrev taken_round : Ready
taken_round = record {
  stdin = none;
  child_stdin = some 7;
  tun_out = none;
  child_stdout = none;
  tun_in = [];
}

abbrev front_part : Bytes
front_part = 0 ∷ 16 ∷ 0 ∷ 0 ∷ 1 ∷ 2 ∷ 3 ∷ 4 ∷ 5 ∷ 6 ∷ 1 ∷ 2 ∷ 3 ∷ []

abbrev back_part : Bytes
back_part = 4 ∷ 5 ∷ 7 ∷ 0 ∷ 7 ∷ 0 ∷ 0 ∷ b'h' ∷ b'i' ∷ b'\n' ∷ []

abbrev after_line : Driver
after_line = record {
  bufin = [];
  current_write = none;
  cmd_line = [];
  gifc = [] ∷ [] ∷ [];
  current_read = none;
  from_user = b'h' ∷ b'i' ∷ b'\n' ∷ [];
  to_child = front_part ++ back_part;
  from_child = [];
  sent = [];
  printed = [];
}

-- A child that notes the texts of its commands.
abbrev noting : Handlers Bytes
noting = record {
  frame = λ n body s. ok s;
  control = λ body s. ok (s ++ body);
  mac = λ n addr s. ok s;
}

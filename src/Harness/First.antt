-- ===== src/Harness/First.antt =====
-- The first message in `child_buf`, and the state behind it.
use project_and_training_3_n.Base.{
  ◌+◌, ◌≤◌, ◌≡◌, sym, ap, ◌∙◌, true, List, ◌∷◌, ◌++◌, Bytes, ntohs, length, take, drop,
  length-append, length-drop, take_append, drop_append, take-append_le, drop-append_le,
  take-append-drop, append_assoc, arith,
}
use project_and_training_3_n.Wire.{header_size}
use project_and_training_3_n.Wire.Delivery.{Message, encode, encode_all}
use project_and_training_3_n.Harness.{Wait, Harness, memory}
use project_and_training_3_n.Harness.Receive.{size_of, type_of, is_complete, remove_message}
use project_and_training_3_n.Harness.Stream.{IsSized, Holds, Ready, length-encode, complete_long}

-- A complete message: what the receiver sees of it, and the state behind it.
pub record First (h : Harness) (m : Message) (ms : List Message) : Type 0 where
  pub sized : size_of h ≡ header_size + length m.body
  pub typed : type_of h ≡ m.type
  pub behind : Bytes
  pub body : drop header_size (memory h) ≡ m.body ++ behind
  pub after : Holds (remove_message h) ms

pub first_message :
    (h : Harness) (m : Message) (ms : List Message)
    → IsSized m
    → Holds h (m ∷ ms)
    → is_complete h ≡ true
    → First h m ms
unfolding remove_message
first_message h m ms v r c =
    let k = header_size + length m.body in
    let long : k ≤ length h.child_buf = complete_long h m (encode_all ms) v r.stream c in
    let rest = drop k h.child_buf in
    let front : take k h.child_buf ≡ encode m =
      sym (take-append_le h.child_buf h.pipe k long)
      ∙ ap (take k) r.stream
      ∙ take_append (encode m) (encode_all ms) k (length-encode m) in
    let parts : h.child_buf ≡ encode m ++ rest =
      sym (take-append-drop k h.child_buf) ∙ ap (λ xs. xs ++ rest) front in
    let all : memory h ≡ encode m ++ (rest ++ h.behind) =
      ap (λ xs. xs ++ h.behind) parts ∙ append_assoc (encode m) rest h.behind in
    let size : size_of h ≡ k = ap ntohs all ∙ omega arith in
    record {
      sized = size;
      typed = ap (λ xs. ntohs (drop 2 xs)) all ∙ omega arith;
      behind = rest ++ h.behind;
      body = ap (drop header_size) all;
      after = record {
        stream = rw size (
            sym (drop-append_le h.child_buf h.pipe k long)
            ∙ ap (drop k) r.stream
            ∙ drop_append (encode m) (encode_all ms) k (length-encode m));
        room = omega (
          arith,
          r.room,
          length-drop (length (drop (size_of h) h.child_buf)) (memory h),
          length-append h.child_buf h.behind,
          length-drop (size_of h) h.child_buf,
        );
      };
    }

pub remove_message-Ready :
    {h : Harness} {ws : List Wait} {m : Message} {ms : List Message}
    → Ready h ws (m ∷ ms)
    → First h m ms
    → Ready (remove_message h) ws ms
unfolding remove_message
remove_message-Ready r f = record {
  stream = f.after.stream;
  room = f.after.room;
  live = r.live;
  enough = r.enough;
}

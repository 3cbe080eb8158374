-- ===== src/Driver/Parcels.antt =====
-- The messages that the child writes, and what becomes of them.
use project_and_training_3_n.Base.{
  ℕ, suc, ◌+◌, ◌-◌, ◌≤◌, ◌≡◌, refl, sym, ap, ◌∙◌, List, [], ◌∷◌, ◌++◌, Bytes, ntohs, ◌==◌,
  if◌then◌else◌, length, take, drop, append_assoc, append-nil, take-append-drop, length-take, arith,
}
use project_and_training_3_n.Wire.{header_size}
use project_and_training_3_n.Router.Command.{c_string}

-- A message as it stands in the stream.
pub record Parcel : Type 0 where
  pub head : Bytes
  pub body : Bytes

abbrev pub raw : Parcel → Bytes
raw p = p.head ++ p.body

abbrev pub type_of : Parcel → ℕ
type_of p = ntohs (drop 2 p.head)

-- The header has its four bytes and says how long the message is.
abbrev pub IsWhole : Parcel → Type 0
IsWhole p = (length p.head ≡ header_size) × (ntohs p.head ≡ header_size + length p.body)

-- Each byte with the interface that it goes to.
abbrev pub bytes_to : ℕ → Bytes → List (ℕ × ℕ)
bytes_to i [] = []
bytes_to i (x ∷ xs) = (i, x) ∷ bytes_to i xs

pub bytes_to-append :
    (i : ℕ) (xs ys : Bytes) → bytes_to i (xs ++ ys) ≡ bytes_to i xs ++ bytes_to i ys
bytes_to-append i [] ys = refl
bytes_to-append i (x ∷ xs) ys = ap (◌∷◌ (i, x)) (bytes_to-append i xs ys)

abbrev pub each {ℓ κ} : {A : Type ℓ} {B : Type κ} → (A → List B) → List A → List B
each f [] = []
each f (x ∷ xs) = f x ++ each f xs

pub each-snoc {ℓ κ} :
    {A : Type ℓ} {B : Type κ} (f : A → List B) (xs : List A) (x : A)
    → each f (xs ++ x ∷ []) ≡ each f xs ++ f x
each-snoc f [] x = append-nil (f x)
each-snoc f (y ∷ xs) x =
    ap (◌++◌ (f y)) (each-snoc f xs x) ∙ sym (append_assoc (f y) (each f xs) (f x))

-- What the terminal shows of a message, and what the network gets.
abbrev pub text_of : Parcel → Bytes
text_of p = if type_of p == 0 then c_string p.body else []

abbrev pub frame_bytes : Parcel → List (ℕ × ℕ)
frame_bytes p = if type_of p == 0 then [] else bytes_to (type_of p - 1) p.body

-- The message at the front of a buffer that holds `s` bytes or more.
pub record Front (bufin : Bytes) (s : ℕ) : Type 0 where
  pub parcel : Parcel
  pub rest : Bytes
  pub split : bufin ≡ raw parcel ++ rest
  pub behind : drop s bufin ≡ rest
  pub body : take (s - header_size) (drop header_size bufin) ≡ parcel.body
  pub type : ntohs (drop 2 bufin) ≡ type_of parcel
  pub head : length parcel.head ≡ header_size
  pub size : ntohs parcel.head ≡ ntohs bufin
  pub length_body : header_size + length parcel.body ≡ s

pub front : (bufin : Bytes) (s : ℕ) → header_size ≤ s → s ≤ length bufin → Front bufin s
front (a ∷ b ∷ c ∷ d ∷ more) (suc (suc (suc (suc k)))) low high = record {
  parcel = record { head = a ∷ b ∷ c ∷ d ∷ []; body = take k more };
  rest = drop k more;
  split = ap (λ (t : Bytes). a ∷ b ∷ c ∷ d ∷ t) (sym (take-append-drop k more));
  behind = refl;
  body =
      let left : suc (suc (suc (suc k))) - header_size ≡ k = omega arith in
      ap (λ n. take n more) left;
  type = refl;
  head = refl;
  size = refl;
  length_body = omega (arith, length-take k more);
}
front _ _ low high = absurd (omega arith)

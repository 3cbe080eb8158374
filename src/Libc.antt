-- ===== src/Libc.antt =====
-- What the programs use of the C library on text. A text is the bytes before its terminator.
pub mod Scan
pub mod Tokens
use project_and_training_3_n.Base.{
  ℕ, zero, suc, not, ◌+◌, ◌-◌, ◌*◌, ◌%◌, ◌^◌, min, Bool, true, false, ◌&&◌, ◌||◌, Option, none,
  some, List, [], ◌∷◌, ◌++◌, Bytes, ◌==◌, leb, ltb, if◌then◌else◌,
}

-- `strchr`: the text before the first `c`, and the text behind it.
unfoldable pub strchr : ℕ → Bytes → Option (Bytes × Bytes)
strchr c [] = none
strchr c (x ∷ xs) =
    let rest = strchr c xs in
    elim (x == c) [
      | true ↦ some ([], xs)
      | false ↦ elim rest [ none ↦ none | some (before, behind) ↦ some (x ∷ before, behind) ]
    ]

-- A token that is complete, unless it is empty.
abbrev pub emit : Bytes → List Bytes → List Bytes
emit [] ts = ts
emit (x ∷ xs) ts = (x ∷ xs) ∷ ts

-- What a row of calls of `strtok` with the one delimiter `d` returns; `tok` is read so far.
unfoldable pub tokens_from : ℕ → Bytes → Bytes → List Bytes
tokens_from d tok [] = emit tok []
tokens_from d tok (x ∷ xs) =
    let next = tokens_from d [] xs in
    let more = tokens_from d (tok ++ x ∷ []) xs in if x == d then emit tok next else more

unfoldable pub strtok : ℕ → Bytes → List Bytes
unfolding tokens_from
strtok d s = tokens_from d [] s

unfoldable pub is_digit : ℕ → Bool
is_digit c = leb b'0' c && leb c b'9'

-- `isspace`
unfoldable pub is_space : ℕ → Bool
is_space c = c == 32 || (leb 9 c && leb c 13)

unfoldable pub skip_space : Bytes → Bytes
unfolding is_space
skip_space [] = []
skip_space (c ∷ cs) = let rest = skip_space cs in if is_space c then rest else c ∷ cs

-- The value of the digits at the front.
unfoldable pub digits_value : ℕ → Bytes → ℕ
unfolding is_digit
digits_value acc [] = acc
digits_value acc (c ∷ cs) =
    let rest = digits_value (acc * 10 + (c - b'0')) cs in if is_digit c then rest else acc

unfoldable pub scan_digits : Bytes → Option ℕ
unfolding digits_value
scan_digits [] = none
scan_digits (c ∷ cs) = if is_digit c then some (digits_value 0 (c ∷ cs)) else none

-- `strtoul` stops at `ULONG_MAX`; the store in an `unsigned int` keeps 32 bits.
unfoldable pub to_uint : ℕ → ℕ
to_uint n = min n (2 ^ 64 - 1) % 2 ^ 32

unfoldable pub to_uint_negated : ℕ → ℕ
to_uint_negated n = if ltb n (2 ^ 64) then (2 ^ 64 - n) % 2 ^ 32 else (2 ^ 64 - 1) % 2 ^ 32

abbrev convert : (ℕ → ℕ) → Option ℕ → Option ℕ
convert f none = none
convert f (some n) = some (f n)

unfoldable pub scan_sign : Bytes → Option ℕ
unfolding scan_digits to_uint to_uint_negated
scan_sign [] = none
scan_sign (c ∷ cs) =
    if c == b'+'
    then convert to_uint (scan_digits cs)
    else if c == b'-'
    then convert to_uint_negated (scan_digits cs)
    else convert to_uint (scan_digits (c ∷ cs))

-- `sscanf (s, "%u", &n)`: `n` if it returns 1. What follows the digits does not matter.
unfoldable pub scan_uint : Bytes → Option ℕ
unfolding skip_space scan_sign
scan_uint s = scan_sign (skip_space s)

-- `tolower` on ASCII.
unfoldable pub tolower : ℕ → ℕ
tolower c = if leb b'A' c && leb c b'Z' then c + 32 else c

-- `0 == strcasecmp (a, b)`
unfoldable pub equal_case : Bytes → Bytes → Bool
unfolding tolower
equal_case [] [] = true
equal_case (x ∷ xs) (y ∷ ys) = tolower x == tolower y && equal_case xs ys
equal_case _ _ = false

-- `0 == strncasecmp (s, prefix, strlen (prefix))`: the text behind the prefix.
unfoldable pub after_prefix : Bytes → Bytes → Option Bytes
unfolding tolower
after_prefix [] s = some s
after_prefix (x ∷ xs) [] = none
after_prefix (x ∷ xs) (y ∷ ys) =
    let rest = after_prefix xs ys in if tolower x == tolower y then rest else none

-- A number from 0 to 255 in digits, without a leading zero.
unfoldable pub octet_from : ℕ → Bytes → Option ℕ
unfolding is_digit
octet_from n [] = some n
octet_from n (c ∷ cs) =
    let m = n * 10 + (c - b'0') in
    let rest = octet_from m cs in if is_digit c && not (n == 0) && leb m 255 then rest else none

unfoldable pub octet : Bytes → Option ℕ
unfolding octet_from
octet [] = none
octet (c ∷ []) = if is_digit c then some (c - b'0') else none
octet (c ∷ d ∷ cs) = if is_digit c then octet_from (c - b'0') (d ∷ cs) else none

-- Four numbers with a dot between two of them, and nothing else.
unfoldable pub octets : ℕ → ℕ → Bytes → Option ℕ
unfolding octet strchr
octets zero n s = elim (octet s) [ none ↦ none | some b ↦ some (n * 256 + b) ]
octets (suc dots) n s = elim (strchr b'.' s) [
  | none ↦ none
  | some (before, behind) ↦ elim (octet before) [
    | none ↦ none
    | some b ↦ octets dots (n * 256 + b) behind
  ]
]

-- `inet_pton (AF_INET, s, &a)`: the address as the host reads it, if the call returns 1.
unfoldable pub inet_pton : Bytes → Option ℕ
unfolding octets
inet_pton s = octets 3 0 s

-- ===== src/Base/Buffers.antt =====
-- Byte buffers: a buffer is the list of its bytes, a number of a header its bytes in network order.
use Prim.Native.Nat.{ℕ, ◌+◌, ◌*◌, ◌/◌, ◌%◌, ◌^◌, ◌<◌}
use mathlib.Core.Path.{◌≡◌}
use mathlib.Core.Logic.{◌↔◌}
use mathlib.Core.Bool.{Bool, true, false, ◌&&◌}
use mathlib.Core.List.{List, [], ◌∷◌, ◌++◌}
use native.Mathlib.Omega.{arith}
use project_and_training_3_n.Base.Tests.{◌==◌}

abbrev pub Bytes : Type 0
Bytes = List ℕ

-- `htons` and the two bytes that `memcpy` of the field writes; the upper bits are cut off.
abbrev pub htons : ℕ → Bytes
htons n = n / 256 % 256 ∷ n % 256 ∷ []

-- `ntohs` of the first two bytes.
abbrev pub ntohs : Bytes → ℕ
ntohs (a ∷ b ∷ _) = a * 256 + b
ntohs _ = 0

abbrev pub htonl : ℕ → Bytes
htonl n = n / 2 ^ 24 % 256 ∷ n / 2 ^ 16 % 256 ∷ n / 2 ^ 8 % 256 ∷ n % 256 ∷ []

abbrev pub ntohl : Bytes → ℕ
ntohl (a ∷ b ∷ c ∷ d ∷ _) = a * 2 ^ 24 + b * 2 ^ 16 + c * 2 ^ 8 + d
ntohl _ = 0

pub ntohs-htons : (n : ℕ) (rest : Bytes) → n < 2 ^ 16 → ntohs (htons n ++ rest) ≡ n
ntohs-htons n rest h = omega arith

pub ntohl-htonl : (n : ℕ) (rest : Bytes) → n < 2 ^ 32 → ntohl (htonl n ++ rest) ≡ n
ntohl-htonl n rest h = omega arith

-- `0 == memcmp (a, b, n)` of two buffers of the same size.
unfoldable pub equal : Bytes → Bytes → Bool
equal [] ws = elim ws [ [] ↦ true | _ ∷ _ ↦ false ]
equal (v ∷ vs) [] = false
equal (v ∷ vs) (w ∷ ws) = let rest = equal vs ws in v == w && rest

pub equal_iff : (vs ws : Bytes) → (equal vs ws ≡ true) ↔ (vs ≡ ws)
unfolding equal
equal_iff [] [] = ground arith
equal_iff [] (w ∷ ws) = ground arith
equal_iff (v ∷ vs) [] = ground arith
equal_iff (v ∷ vs) (w ∷ ws) = ground (equal_iff vs ws, arith)

-- ===== src/Harness/Expect.antt =====
-- The receivers of harness.c: what a test says about a message.
use project_and_training_3_n.Base.{
  ℕ, suc, ◌-◌, ◌^◌, Bool, ◌&&◌, Bytes, bit_and, equal, ◌==◌, leb, if◌then◌else◌, take, Result, ok,
  err, undefined_shift,
}

-- A length, or for an expected frame that may be padded, its length with a minus: `negsuc n` is
-- -(n + 1).
pub data ℤ : Type 0 where
  pos negsuc : ℕ → ℤ

-- `memcmp` finds the first `n` bytes of `msg` equal to those of `frame`.
abbrev pub same_front : ℕ → Bytes → Bytes → Bool
same_front n msg frame = equal (take n msg) (take n frame)

-- The two tests of `expect_frame`, without that of the interface. A negative length takes the first
-- one alone: `msg_len == cls2` holds for it only if the size of the message is below 4.
unfoldable pub fits_frame : Bytes → ℕ → Bytes → ℤ → Bool
fits_frame msg msg_len frame (pos n) = msg_len == n && same_front n msg frame
fits_frame msg msg_len frame (negsuc n) = leb (suc n) msg_len && same_front (suc n) msg frame

-- The returned code. `msg` is all that stands in `child_buf` from the message's body on.
unfoldable pub expect_frame : ℕ → Bytes → ℕ → Bytes → ℤ → ℕ → ℕ
unfolding fits_frame
expect_frame ifc msg msg_len frame len wanted =
    if ifc == 0 then 2 else if wanted == ifc && fits_frame msg msg_len frame len then 0 else 1

-- The returned code and `*all`. `1 << (ifc - 1)` is a shift of an `int`.
unfoldable pub expect_multicast : ℕ → ℕ → Bytes → ℕ → Bytes → ℤ → Result (ℕ × ℕ)
expect_multicast all ifc msg msg_len frame len =
    if ifc == 0
    then ok (2, all)
    else if leb 64 ifc
    then ok (1, all)
    else if leb 32 ifc
    then err undefined_shift
    else if bit_and all (2 ^ (ifc - 1)) == 0
    then ok (1, all)
    else if expect_frame ifc msg msg_len frame len ifc == 0
    then (let all' = all - 2 ^ (ifc - 1) in if all' == 0 then ok (0, all') else ok (1, all'))
    else ok (1, all)

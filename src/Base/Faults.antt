-- ===== src/Base/Faults.antt =====
-- How a C function of these programs can fail to return.

-- `abort ()`, an access outside the object (or through a null pointer), and a shift of an `int`
-- whose result does not fit.
pub data Fault : Type 0 where
  aborted out_of_bounds undefined_shift : Fault

-- A value, or the fault that kept the call from returning one.
pub data Result {ℓ} (V : Type ℓ) : Type ℓ where
  ok : V → Result V
  err : Fault → Result V

-- The first fault is the fault of the whole.
infixl 5 ◌>>=◌
abbrev pub ◌>>=◌ {ℓ κ} : {V : Type ℓ} {W : Type κ} → Result V → (V → Result W) → Result W
err fault >>= next = err fault
ok v >>= next = next v

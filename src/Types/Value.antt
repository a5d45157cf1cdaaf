-- ===== src/Types/Value.antt =====
-- What the program keeps in an `interface{}`: the parameters and the results of a contract's method.
use toychain.Prelude.{ℕ, Bytes}
use toychain.Prelude.Int.{ℤ}

-- One constructor for each type that the code asks for. `float64` holds the integer that Go's
-- `int64(x)` makes of the float, which is all that is read of it; `other` is any further type.
pub data Value : Type 0 where
  nil other : Value
  address string bytes : Bytes → Value
  uint64 : ℕ → Value
  int64 float64 big_int : ℤ → Value

-- A Cid by its key string, the bytes that `Equals` and `KeyString` go by.
abbrev pub Cid : Type 0
Cid = Bytes

-- ===== src/Prelude/Results.antt =====
-- A call that returns a value or raises an error.
pub data Result (Raised Value : Type 0) : Type 0 where
  ok : Value → Result Raised Value
  err : Raised → Result Raised Value

infixl 5 ◌>>=◌
-- The statements after a call: they are skipped where it raises.
abbrev pub ◌>>=◌ :
    {Raised Value Next : Type 0}
    → Result Raised Value
    → (Value → Result Raised Next)
    → Result Raised Next
call >>= next = elim call [ ok value ↦ next value | err raised ↦ err raised ]

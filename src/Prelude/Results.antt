-- ===== src/Prelude/Results.antt =====
-- What a fallible operation of the code returns: its value or an error.
pub data Result (E A : Type 0) : Type 0 where
  err : E → Result E A
  ok : A → Result E A

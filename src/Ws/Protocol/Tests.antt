-- ===== src/Ws/Protocol/Tests.antt =====
-- The theorem on protocol.ts at a concrete frame.
use lunibee.Base.{ℕ, true, ltb, ◌==◌, ◌≡◌, refl, Option, some, Text, codes, []}
use lunibee.Ws.Protocol.{
  Numbers, Value, object, number, boolean, field, end, classify_frame, classify_payload, action_of,
  invalid_session,
}
use lunibee.Ws.Protocol.Meaning.{classify_frame-IsExplained, IsExplained}

abbrev naturals : Numbers
naturals = record {
  Number = ℕ;
  is_finite = λ n. true;
  is_positive = ltb 0;
  is_natural = λ a b. a == b;
}

-- `{"op": 9, "d": true}`
abbrev frame : Value ℕ
frame = object (field (codes "op") (number 9) (field (codes "d") (boolean true) end))

abbrev parse : Text → Option (Value ℕ)
parse s = some frame

frame_action : (classify_frame naturals parse []).action ≡ invalid_session true
unfolding classify_frame classify_payload action_of
frame_action = refl

classify_frame-IsExplained_example :
    IsExplained naturals (some frame) (classify_frame naturals parse [])
classify_frame-IsExplained_example = classify_frame-IsExplained naturals parse []

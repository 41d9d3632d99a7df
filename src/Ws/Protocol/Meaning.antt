-- ===== src/Ws/Protocol/Meaning.antt =====
-- Which frames of protocol.ts have which meaning.
use lunibee.Base.{
  false, ℕ, ◌≡◌, refl, true, ◌&&◌, Option, none, some, Text, codes, arith, Bool-cases, Option-cases,
  inl, inr,
}
use lunibee.Ws.Protocol.{
  Numbers, Value, GatewayAction, ProtocolResult, hello, dispatch, heartbeat, reconnect,
  heartbeat_ack, invalid_session, unknown, invalid, invalid_json, invalid_payload, invalid_hello,
  get, as_number, as_text, is_true, usable_interval, hello_action, action_of, classify_op,
  classify_payload, classify_parsed, classify_frame, op_dispatch, op_hello, op_heartbeat,
  op_heartbeat_ack, op_reconnect, op_invalid_session,
}

module _ (N : Numbers) where
  abbrev interval_of : Value N.Number → Option N.Number
  interval_of d = usable_interval N (as_number (get (codes "heartbeat_interval") d))

  -- The opcode of the action.
  abbrev IsOp : N.Number → ℕ → Type 0
  IsOp op n = N.is_natural op n ≡ true

  -- An opcode of none of the other actions.
  abbrev IsUnhandled : N.Number → Type 0
  IsUnhandled op =
      (N.is_natural op op_dispatch ≡ false)
      × (N.is_natural op op_hello ≡ false)
      × (N.is_natural op op_heartbeat ≡ false)
      × (N.is_natural op op_heartbeat_ack ≡ false)
      × (N.is_natural op op_reconnect ≡ false)
      × (N.is_natural op op_invalid_session ≡ false)

  -- What an action says of the opcode and the data of its frame.
  abbrev Justified : N.Number → Value N.Number → Value N.Number → GatewayAction N.Number → Type 0
  Justified op t d (hello interval) =
      IsOp op op_hello
      × (as_number (get (codes "heartbeat_interval") d) ≡ some interval)
      × (N.is_finite interval ≡ true)
      × (N.is_positive interval ≡ true)
  Justified op t d (dispatch event x) = IsOp op op_dispatch × (event ≡ as_text t) × (x ≡ d)
  Justified op t d heartbeat = IsOp op op_heartbeat
  Justified op t d reconnect = IsOp op op_reconnect
  Justified op t d (heartbeat_ack x) = IsOp op op_heartbeat_ack × (x ≡ d)
  Justified op t d (invalid_session resumable) =
      IsOp op op_invalid_session × (resumable ≡ is_true d)
  Justified op t d (unknown code) = (code ≡ op) × IsUnhandled op
  Justified op t d (invalid violation) =
      IsOp op op_hello × (interval_of d ≡ none) × (violation ≡ invalid_hello)

  hello_action-Justified :
      (op : N.Number) (t d : Value N.Number)
      → IsOp op op_hello
      → Justified op t d (hello_action N (interval_of d))
  hello_action-Justified op t d is =
      elim (Option-cases (as_number (get (codes "heartbeat_interval") d))) [
        | inl e ↦ rw e (is, rw e refl, refl)
        | inr (x, e) ↦ elim (Bool-cases (N.is_finite x && N.is_positive x)) [
          | inl ok ↦ rw (e, ok) (is, e, ground (arith, ok), ground (arith, ok))
          | inr bad ↦ rw (e, bad) (is, rw (e, bad) refl, refl)
        ]
      ]

  action_of-Justified :
      (op : N.Number) (t d : Value N.Number) → Justified op t d (action_of N op t d)
  unfolding action_of
  action_of-Justified op t d = elim (Bool-cases (N.is_natural op op_dispatch)) [
    | inl e ↦ rw e (e, refl, refl)
    | inr n0 ↦ elim (Bool-cases (N.is_natural op op_hello)) [
      | inl e ↦ rw (n0, e) (hello_action-Justified op t d e)
      | inr n1 ↦ elim (Bool-cases (N.is_natural op op_heartbeat)) [
        | inl e ↦ rw (n0, n1, e) e
        | inr n2 ↦ elim (Bool-cases (N.is_natural op op_heartbeat_ack)) [
          | inl e ↦ rw (n0, n1, n2, e) (e, refl)
          | inr n3 ↦ elim (Bool-cases (N.is_natural op op_reconnect)) [
            | inl e ↦ rw (n0, n1, n2, n3, e) e
            | inr n4 ↦ elim (Bool-cases (N.is_natural op op_invalid_session)) [
              | inl e ↦ rw (n0, n1, n2, n3, n4, e) (e, refl)
              | inr n5 ↦ rw (n0, n1, n2, n3, n4, n5) (refl, (n0, n1, n2, n3, n4, n5))
            ]
          ]
        ]
      ]
    ]
  ]

  -- What the result for a payload says of it.
  abbrev IsMeant : Value N.Number → Option N.Number → ProtocolResult N.Number → Type 0
  IsMeant payload none r = (r.sequence ≡ none) × (r.action ≡ invalid invalid_payload)
  IsMeant payload (some op) r =
      (r.sequence ≡ as_number (get (codes "s") payload))
      × Justified op (get (codes "t") payload) (get (codes "d") payload) r.action

  abbrev pub IsExplained : Option (Value N.Number) → ProtocolResult N.Number → Type 0
  IsExplained none r = (r.sequence ≡ none) × (r.action ≡ invalid invalid_json)
  IsExplained (some payload) r = IsMeant payload (as_number (get (codes "op") payload)) r

  classify_op-IsMeant :
      (op : Option N.Number) (payload : Value N.Number)
      → IsMeant payload op (classify_op N op payload)
  classify_op-IsMeant none payload = (refl, refl)
  classify_op-IsMeant (some op) payload =
      (refl, action_of-Justified op (get (codes "t") payload) (get (codes "d") payload))

  -- Every frame is classified, and truly: text that is no JSON as such; a value without a numeric
  -- opcode as an invalid payload, both without a sequence; any other with the sequence that it
  -- carries, and as an action with its opcode, where a `hello` has the frame's interval, finite and
  -- positive, and is invalid only without such an interval, a session is resumable exactly if the
  -- data is `true`, and an action is unknown only if its opcode, the one of the frame, is none of
  -- those of the other actions.
  pub classify_frame-IsExplained :
      (parse : Text → Option (Value N.Number)) (raw : Text)
      → IsExplained (parse raw) (classify_frame N parse raw)
  unfolding classify_frame classify_payload
  classify_frame-IsExplained parse raw = explained (parse raw)
    where
      explained : (parsed : Option (Value N.Number)) → IsExplained parsed (classify_parsed N parsed)
      explained none = (refl, refl)
      explained (some payload) = classify_op-IsMeant (as_number (get (codes "op") payload)) payload

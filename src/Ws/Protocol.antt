-- ===== src/Ws/Protocol.antt =====
-- packages/ws/src/protocol.ts and opcodes.ts: what a received frame means. `JSON.parse` is an
-- argument, and so are the numbers of JavaScript; the `cause` and the messages of an invalid frame
-- are left out.
pub mod Meaning
mod Tests
use lunibee.Base.{
  ℕ, Bool, true, false, not, ◌&&◌, ◌||◌, Option, none, some, List, [], ◌∷◌, if◌then◌else◌, Text,
  text_eq, codes,
}

-- A number, `Number.isFinite`, `> 0` and `=== n`.
pub record Numbers : Type 1 where
  pub Number : Type 0
  pub is_finite : Number → Bool
  pub is_positive : Number → Bool
  pub is_natural : Number → ℕ → Bool

-- A value that `JSON.parse` yields, or `undefined`. An array is an object to the code.
mutual
  pub data Value (Number : Type 0) : Type 0 where
    undefined null : Value Number
    boolean : Bool → Value Number
    number : Number → Value Number
    string : Text → Value Number
    object : Fields Number → Value Number

  pub data Fields (Number : Type 0) : Type 0 where
    end : Fields Number
    field : Text → Value Number → Fields Number → Fields Number

-- GatewayOpcodes
abbrev pub op_dispatch : ℕ
op_dispatch = 0

abbrev pub op_heartbeat : ℕ
op_heartbeat = 1

abbrev pub op_reconnect : ℕ
op_reconnect = 7

abbrev pub op_invalid_session : ℕ
op_invalid_session = 9

abbrev pub op_hello : ℕ
op_hello = 10

abbrev pub op_heartbeat_ack : ℕ
op_heartbeat_ack = 11

pub data ProtocolViolation : Type 0 where
  invalid_json invalid_payload invalid_hello : ProtocolViolation

pub data GatewayAction (Number : Type 0) : Type 0 where
  hello : Number → GatewayAction Number
  dispatch : Option Text → Value Number → GatewayAction Number
  heartbeat reconnect : GatewayAction Number
  heartbeat_ack : Value Number → GatewayAction Number
  invalid_session : Bool → GatewayAction Number
  unknown : Number → GatewayAction Number
  invalid : ProtocolViolation → GatewayAction Number

pub record ProtocolResult (Number : Type 0) : Type 0 where
  pub sequence : Option Number
  pub action : GatewayAction Number

module _ {Number : Type 0} where
  -- The last field of a name is the one that counts.
  abbrev pub field_of : Text → Fields Number → Value Number
  field_of name end = undefined
  field_of name (field n v fs) = elim (field_of name fs) [
    | undefined ↦ if text_eq n name then v else undefined
    | null ↦ null
    | boolean b ↦ boolean b
    | number x ↦ number x
    | string s ↦ string s
    | object gs ↦ object gs
  ]

  -- `value?.name`
  abbrev pub get : Text → Value Number → Value Number
  get name (object fs) = field_of name fs
  get name _ = undefined

  abbrev pub as_number : Value Number → Option Number
  as_number (number x) = some x
  as_number _ = none

  abbrev pub as_text : Value Number → Option Text
  as_text (string s) = some s
  as_text _ = none

  abbrev pub is_true : Value Number → Bool
  is_true (boolean b) = b
  is_true _ = false

module _ (N : Numbers) where
  abbrev pub usable_interval : Option N.Number → Option N.Number
  usable_interval none = none
  usable_interval (some x) = if N.is_finite x && N.is_positive x then some x else none

  abbrev pub hello_action : Option N.Number → GatewayAction N.Number
  hello_action none = invalid invalid_hello
  hello_action (some interval) = hello interval

  -- The switch on the opcode.
  unfoldable pub action_of : N.Number → Value N.Number → Value N.Number → GatewayAction N.Number
  action_of op t d =
      if N.is_natural op op_dispatch
      then dispatch (as_text t) d
      else if N.is_natural op op_hello
      then hello_action (usable_interval (as_number (get (codes "heartbeat_interval") d)))
      else if N.is_natural op op_heartbeat
      then heartbeat
      else if N.is_natural op op_heartbeat_ack
      then heartbeat_ack d
      else if N.is_natural op op_reconnect
      then reconnect
      else if N.is_natural op op_invalid_session
      then invalid_session (is_true d)
      else unknown op

  abbrev pub classify_op : Option N.Number → Value N.Number → ProtocolResult N.Number
  classify_op none payload = record { sequence = none; action = invalid invalid_payload }
  classify_op (some op) payload = record {
    sequence = as_number (get (codes "s") payload);
    action = action_of op (get (codes "t") payload) (get (codes "d") payload);
  }

  -- A value that is no object has no `op`.
  unfoldable pub classify_payload : Value N.Number → ProtocolResult N.Number
  classify_payload payload = classify_op (as_number (get (codes "op") payload)) payload

  abbrev pub classify_parsed : Option (Value N.Number) → ProtocolResult N.Number
  classify_parsed none = record { sequence = none; action = invalid invalid_json }
  classify_parsed (some payload) = classify_payload payload

  unfoldable pub classify_frame : (Text → Option (Value N.Number)) → Text → ProtocolResult N.Number
  classify_frame parse raw = classify_parsed (parse raw)

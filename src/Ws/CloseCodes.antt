-- ===== src/Ws/CloseCodes.antt =====
-- packages/ws/src/close-codes.ts: `GatewayCloseCodes`.
use lunibee.Base.{ℕ}

abbrev pub unknown_error : ℕ
unknown_error = 4000

abbrev pub unknown_opcode : ℕ
unknown_opcode = 4001

abbrev pub decode_error : ℕ
decode_error = 4002

abbrev pub not_authenticated : ℕ
not_authenticated = 4003

abbrev pub authentication_failed : ℕ
authentication_failed = 4004

abbrev pub already_authenticated : ℕ
already_authenticated = 4005

abbrev pub invalid_seq : ℕ
invalid_seq = 4007

abbrev pub rate_limited : ℕ
rate_limited = 4008

abbrev pub session_timed_out : ℕ
session_timed_out = 4009

abbrev pub invalid_shard : ℕ
invalid_shard = 4010

abbrev pub sharding_required : ℕ
sharding_required = 4011

abbrev pub invalid_api_version : ℕ
invalid_api_version = 4012

abbrev pub invalid_intents : ℕ
invalid_intents = 4013

abbrev pub disallowed_intents : ℕ
disallowed_intents = 4014

-- ===== src/Ws/Session.antt =====
-- packages/ws/src/session.ts: `GatewaySession` and `isTrustedGatewayURL`.
-- A method returns the new state beside its result. The URL parser of the runtime is the
-- parameter `parse_url`.
pub mod Ownership
pub mod Sequence
pub mod Handshake
pub mod Trust
mod Tests
use lunibee.Base.{
  ℕ, suc, ◌+◌, Bool, true, false, not, ◌&&◌, ◌||◌, Option, none, some, List, [], ◌∷◌, ℤ, ltb_ℤ,
  ◌==◌, if◌then◌else◌, is_some, Text, codes, text_eq, to_lower, ends_with,
}

pub record ResumeInfo : Type 0 where
  pub session_id : Text
  pub sequence : ℤ
  pub resume_url : Text

pub data HandshakeIntent : Type 0 where
  resume : ResumeInfo → HandshakeIntent
  identify : HandshakeIntent

pub data SessionState : Type 0 where
  no_session : SessionState
  established : Text → Text → SessionState

pub data InvalidationReason : Type 0 where
  invalid_session session_timeout explicit : InvalidationReason

-- The private fields of the class.
pub record GatewaySession : Type 0 where
  pub state : SessionState
  pub sequence : Option ℤ
  pub generation : ℕ
  pub last_invalidation : Option InvalidationReason

unfoldable pub new_session : GatewaySession
new_session = record {
  state = no_session;
  sequence = none;
  generation = 0;
  last_invalidation = none;
}

-- A JavaScript number, as far as `Number.isInteger` looks at it.
pub data Number : Type 0 where
  integer : ℤ → Number
  not_integer : Number

-- A field of a decoded payload, as far as `typeof … === "string"` looks at it.
pub data Field : Type 0 where
  text : Text → Field
  not_text : Field

-- A READY payload; `nullish` stands for `null` and `undefined`, all whose fields read as undefined.
pub data Payload : Type 0 where
  nullish : Payload
  ready : Field → Field → Payload

unfoldable pub session_id_of : SessionState → Option Text
session_id_of (established id url) = some id
session_id_of no_session = none

unfoldable pub resume_url_of : SessionState → Option Text
resume_url_of (established id url) = some url
resume_url_of no_session = none

abbrev is_established : SessionState → Bool
is_established (established id url) = true
is_established no_session = false

unfoldable pub can_resume : GatewaySession → Bool
can_resume s = is_established s.state && is_some s.sequence

unfoldable pub begin_connection : GatewaySession → GatewaySession × ℕ
begin_connection s = let token = s.generation + 1 in (record s { generation = token }, token)

abbrev pub owns : GatewaySession → ℕ → Bool
owns s token = token == s.generation

-- The test `this.#sequence !== null && sequence < this.#sequence`.
abbrev pub is_behind : ℤ → Option ℤ → Bool
is_behind n none = false
is_behind n (some last) = ltb_ℤ n last

store_sequence : GatewaySession → Number → GatewaySession × Bool
store_sequence s not_integer = (s, false)
store_sequence s (integer n) =
    if is_behind n s.sequence then (s, false) else (record s { sequence = some n }, true)

unfoldable pub record_sequence : GatewaySession → Number → ℕ → GatewaySession × Bool
unfolding store_sequence
record_sequence s n token = if not (owns s token) then (s, false) else store_sequence s n

establish : GatewaySession → Payload → GatewaySession × Bool
establish s (ready (text id) (text url)) = (record s { state = established id url }, true)
establish s _ = (s, false)

unfoldable pub activate : GatewaySession → Payload → ℕ → GatewaySession × Bool
unfolding establish
activate s payload token = if not (owns s token) then (s, false) else establish s payload

unfoldable pub invalidate : GatewaySession → ℕ → InvalidationReason → GatewaySession × Bool
invalidate s token reason =
    if not (owns s token)
    then (s, false)
    else (record s { state = no_session; sequence = none; last_invalidation = some reason }, true)

resume_of : SessionState → Option ℤ → Option ResumeInfo
resume_of no_session _ = none
resume_of (established id url) none = none
resume_of (established id url) (some n) =
    some (record { session_id = id; sequence = n; resume_url = url })

unfoldable pub resume_info : GatewaySession → Option ResumeInfo
unfolding resume_of
resume_info s = resume_of s.state s.sequence

intent_of : Option ResumeInfo → HandshakeIntent
intent_of (some info) = resume info
intent_of none = identify

unfoldable pub handshake : GatewaySession → HandshakeIntent
unfolding resume_info intent_of
handshake s = intent_of (resume_info s)

-- What the code reads of a `URL` object.
pub record Url : Type 0 where
  pub protocol : Text
  pub username : Text
  pub password : Text
  pub hostname : Text

abbrev is_empty : Text → Bool
is_empty [] = true
is_empty (_ ∷ _) = false

same_host : Text → Option Url → Bool
same_host host none = false
same_host host (some u) = text_eq host (to_lower u.hostname)

abbrev discord_host : Text
discord_host = codes "discord.gg"

abbrev discord_suffix : Text
discord_suffix = codes ".discord.gg"

is_discord_host : Text → Bool
is_discord_host host = text_eq host discord_host || ends_with host discord_suffix

-- The host test after the protocol and the credentials were checked.
host_is_trusted : Text → Option Url → Bool
unfolding same_host is_discord_host
host_is_trusted host fallback = if is_discord_host host then true else same_host host fallback

url_is_trusted : Option Url → Option Url → Bool
unfolding host_is_trusted
url_is_trusted none fallback = false
url_is_trusted (some u) fallback =
    if not (text_eq u.protocol (codes "wss:"))
      || not (is_empty u.username)
      || not (is_empty u.password)
    then false
    else host_is_trusted (to_lower u.hostname) fallback

module _ (parse_url : Text → Option Url) where
  unfoldable pub is_trusted_gateway_url : Text → Text → Bool
  unfolding url_is_trusted
  is_trusted_gateway_url url fallback = url_is_trusted (parse_url url) (parse_url fallback)

  unfoldable pub connect_url : GatewaySession → Text → Text
  unfolding resume_info
  connect_url s fallback = elim (resume_info s) [
    | none ↦ fallback
    | some info ↦
        if is_trusted_gateway_url info.resume_url fallback then info.resume_url else fallback
  ]

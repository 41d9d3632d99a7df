-- ===== src/Ws/Session/Trust.antt =====
-- Which host may receive the token: `isTrustedGatewayURL` and `connectURL` of session.ts.
use mathlib.Core.Bool.{false≢true}
use lunibee.Base.{
  ◌∙◌, ◌≡◌, refl, sym, ◌↔◌, ◌⊎◌, inl, inr, ◌++◌, Bool, true, false, Option, none, some, [], arith,
  Text, codes, text_eq, eq_of_text_eq, text_eq_self, to_lower, ends_with_split, ends_with-append,
  ◌||◌, Bool-cases, Option-cases,
}
use lunibee.Ws.Session.{
  GatewaySession, Url, resume_info, is_trusted_gateway_url, connect_url, host_is_trusted,
  url_is_trusted, same_host, is_discord_host, discord_host, discord_suffix,
}

-- The documented rule for a host, without the tests of the code.
abbrev pub IsTrustedHost : Text → Option Url → Type 0
IsTrustedHost host fallback =
    ((host ≡ discord_host) ⊎ ((front : Text) × (host ≡ front ++ discord_suffix)))
    ⊎ ((u : Url) × (fallback ≡ some u) × (host ≡ to_lower u.hostname))

-- The documented rule for a URL.
abbrev pub IsTrusted : Url → Option Url → Type 0
IsTrusted u fallback =
    (u.protocol ≡ codes "wss:")
    × (u.username ≡ [])
    × (u.password ≡ [])
    × IsTrustedHost (to_lower u.hostname) fallback

same_host_iff :
    (host : Text) (fallback : Option Url)
    → (same_host host fallback ≡ true)
      ↔ ((u : Url) × (fallback ≡ some u) × (host ≡ to_lower u.hostname))
unfolding same_host
same_host_iff host none = (λ h. cc, λ (u, e, _). cc)
same_host_iff host (some u) =
    (λ h. (u, refl, eq_of_text_eq host _ h), λ (v, e, q). ground (arith, text_eq_self host))

or-true : (b : Bool) → (b || true) ≡ true
or-true true = refl
or-true false = refl

is_discord_host_iff :
    (host : Text)
    → (is_discord_host host ≡ true)
      ↔ ((host ≡ discord_host) ⊎ ((front : Text) × (host ≡ front ++ discord_suffix)))
unfolding is_discord_host
is_discord_host_iff host = (
  λ h. elim (Bool-cases (text_eq host discord_host)) [
    | inl e ↦ inl (eq_of_text_eq host discord_host e)
    | inr e ↦ inr (ends_with_split host discord_suffix (rw e at h))
  ],
  elim [
    | inl e ↦ rw e
    | inr (front, e) ↦ rw (e, ends_with-append front discord_suffix) (or-true _)
  ],
)

host_is_trusted_iff :
    (host : Text) (fallback : Option Url)
    → (host_is_trusted host fallback ≡ true) ↔ IsTrustedHost host fallback
unfolding host_is_trusted
host_is_trusted_iff host fallback = elim (Bool-cases (is_discord_host host)) [
  | inl e ↦ (λ h. inl ((is_discord_host_iff host).0 e), λ h. rw e)
  | inr e ↦ (
    λ h. inr ((same_host_iff host fallback).0 (rw e at h)),
    elim [
      | inl d ↦ absurd (false≢true (sym e ∙ (is_discord_host_iff host).1 d))
      | inr f ↦ rw e ((same_host_iff host fallback).1 f)
    ],
  )
]

url_is_trusted_iff :
    (u : Url) (fallback : Option Url)
    → (url_is_trusted (some u) fallback ≡ true) ↔ IsTrusted u fallback
unfolding url_is_trusted
url_is_trusted_iff u fallback =
    let law = host_is_trusted_iff (to_lower u.hostname) fallback in
    (
      λ h. (
        ground (arith, eq_of_text_eq u.protocol (codes "wss:")),
        ground arith,
        ground arith,
        law.0 (ground arith),
      ),
      λ (p, n, w, t). ground (arith, text_eq_self u.protocol, law.1 t),
    )

-- A URL is trusted exactly when it parses, is a `wss:` URL without credentials, and its host is
-- discord.gg, a subdomain of it, or the fallback's own host, case disregarded.
pub is_trusted_gateway_url_iff :
    (parse_url : Text → Option Url) (url fallback : Text)
    → (is_trusted_gateway_url parse_url url fallback ≡ true)
      ↔ ((u : Url) × (parse_url url ≡ some u) × IsTrusted u (parse_url fallback))
unfolding is_trusted_gateway_url
is_trusted_gateway_url_iff parse_url url fallback = elim (Option-cases (parse_url url)) [
  | inl e ↦ (λ h. absurd (false≢true (rw (e, url_is_trusted) at h)), λ (u, p, _). cc)
  | inr (u, e) ↦
      let law = url_is_trusted_iff u (parse_url fallback) in
      (
        λ h. (u, e, law.0 (rw e at h)),
        λ (v, p, t). rw p ((url_is_trusted_iff v (parse_url fallback)).1 t),
      )
]

-- The URL that the next connection dials is the fallback, or one that the rule trusts.
pub connect_url-IsTrusted :
    (parse_url : Text → Option Url) (s : GatewaySession) (fallback : Text)
    → (connect_url parse_url s fallback ≡ fallback)
      ⊎ ((u : Url) × (parse_url (connect_url parse_url s fallback) ≡ some u)
          × IsTrusted u (parse_url fallback))
unfolding connect_url
connect_url-IsTrusted parse_url s fallback = elim (Option-cases (resume_info s)) [
  | inl e ↦ inl (rw (e, connect_url))
  | inr (info, e) ↦ elim (Bool-cases (is_trusted_gateway_url parse_url info.resume_url fallback)) [
    | inl t ↦ inr (
        rw (e, connect_url, t)
          ((is_trusted_gateway_url_iff parse_url info.resume_url fallback).0 t))
    | inr f ↦ inl (rw (e, connect_url, f))
  ]
]

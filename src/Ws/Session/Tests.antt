-- ===== src/Ws/Session/Tests.antt =====
-- Runs of the session of session.ts, and the theorems about it at concrete inputs.
use lunibee.Base.{◌≡◌, refl, ◌↔◌, ◌⊎◌, false, Option, none, some, List, [], ◌∷◌, pos, Text, codes}
use lunibee.Ws.Session.{
  GatewaySession, established, ResumeInfo, resume, identify, integer, text, ready, Url, handshake,
  can_resume, is_trusted_gateway_url, connect_url,
}
use lunibee.Ws.Session.Ownership.{step, Call, records, activates, run, owned_calls, run-owned_calls}
use lunibee.Ws.Session.Sequence.{IsUpTo, AllOffered, run-sequence_newest}
use lunibee.Ws.Session.Handshake.{handshake_iff}
use lunibee.Ws.Session.Trust.{IsTrusted, connect_url-IsTrusted}

abbrev resume_host : Text
resume_host = codes "wss://g.discord.gg"

-- A session at generation 2, established, with sequence 7.
abbrev live : GatewaySession
live = record {
  state = established (codes "abc") resume_host;
  sequence = some (pos 7);
  generation = 2;
  last_invalidation = none;
}

-- A stale READY and a stale sequence among calls of the live socket.
abbrev history : List Call
history =
    records (integer (pos 9)) 2
    ∷ records (integer (pos 40)) 1
    ∷ activates (ready (text (codes "old")) (text (codes "wss://old"))) 1
    ∷ []

history_runs : (run live history).sequence ≡ some (pos 9)
unfolding run step
history_runs = refl

run-owned_calls_example : run live history ≡ run live (owned_calls 2 history)
run-owned_calls_example = run-owned_calls live history

run-sequence_newest_example :
    IsUpTo (some (pos 7)) (run live history).sequence
    × AllOffered (λ n. IsUpTo (some n) (run live history).sequence) 2 history
run-sequence_newest_example =
    run-sequence_newest live history ((λ h. h), ((λ h. h), ((λ h. h), tt)))

handshake_iff_example :
    ((info : ResumeInfo)
      → (handshake live ≡ resume info) ↔ (
          (live.state ≡ established info.session_id info.resume_url)
          × (live.sequence ≡ some info.sequence)))
    × ((handshake live ≡ identify) ↔ (can_resume live ≡ false))
handshake_iff_example = handshake_iff live

-- A parser that knows one host.
abbrev parse : Text → Option Url
parse url = some (record {
  protocol = codes "wss:";
  username = [];
  password = [];
  hostname = codes "G.discord.gg";
})

connect_url-IsTrusted_example :
    (connect_url parse live (codes "x") ≡ codes "x")
    ⊎ ((u : Url) × (parse (connect_url parse live (codes "x")) ≡ some u)
        × IsTrusted u (parse (codes "x")))
connect_url-IsTrusted_example = connect_url-IsTrusted parse live (codes "x")

resumes : connect_url parse live (codes "x") ≡ resume_host
unfolding connect_url is_trusted_gateway_url
resumes = refl

-- ===== src/Sharding/Requests/Tests.antt =====
-- The theorems on requests.ts at concrete histories.
use lunibee.Base.{
  ℕ, ◌+◌, ◌≡◌, ◌↔◌, true, false, none, some, List, [], ◌∷◌, arith, codes, Text, if◌then◌else◌, leb,
}
use lunibee.Sharding.Requests.{
  RequestTracker, Settled, Entry, fresh_tracker, new_entry, answer, find_entry, owner_of, has_text,
}
use lunibee.Sharding.Requests.Once.{
  Event, begins, answers, fails, closes, run, occurrences, run-once,
}
use lunibee.Sharding.Requests.Tracking.{answer_iff}

abbrev first : Text
first = codes "shard:0"

abbrev second : Text
second = codes "shard:1"

abbrev keys : List (Text × ℕ)
keys = (first, 7) ∷ (second, 8) ∷ []

abbrev reply : Settled
reply = record { key = first; result = some 1; error = none }

abbrev history : List Event
history =
    begins keys none
    ∷ answers 1 reply 7
    ∷ begins keys (some true)
    ∷ fails 8 (codes "gone")
    ∷ closes
    ∷ []

run-once_example :
    let (d, done) = run (fresh_tracker 10) history in
    occurrences 1 d.pending + occurrences 1 done ≡ (if leb 1 d.counter then 1 else 0)
run-once_example = run-once 1 10 history (omega arith)

abbrev waiting_one : RequestTracker
waiting_one = record { pending = (1, new_entry keys) ∷ []; max_pending = 10; counter = 1 }

answer_iff_example :
    ((answer waiting_one 1 reply 7).1 ≡ true ↔ (
      (e : Entry) × (find_entry 1 waiting_one.pending ≡ some e)
      × (owner_of first e.keys ≡ some 7)
      × (has_text first e.answered ≡ false)))
    × ((answer waiting_one 1 reply 7).1 ≡ false
        → answer waiting_one 1 reply 7 ≡ (waiting_one, false, []))
answer_iff_example = answer_iff waiting_one 1 reply 7

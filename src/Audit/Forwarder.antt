-- ===== src/Audit/Forwarder.antt =====
-- `Forwarder` of mcp/src/compliance_mcp/audit.py. The spool holds its records oldest first, as the
-- names of its files sort; what becomes of a request is an argument of each attempt.
use regulatory_compliance_he.Prelude.{ℕ, suc, ◌*◌, min, Bool, List, [], ◌∷◌, ◌++◌, if◌then◌else◌}
use regulatory_compliance_he.Prelude.Map.{Dict}
use regulatory_compliance_he.Json.{Json}

-- `received` is what the sink has taken, in order, and `sent` what the forwarder has deleted after a 2xx.
pub record Forwarder : Type 0 where
  pub spool : List (Dict Json)
  pub backoff : ℕ
  pub received : List (Dict Json)
  pub sent : List (Dict Json)

-- How a request ends: the sink takes the record and answers with a 2xx; it does not take it; or it takes
-- it, but the answer is no 2xx or none arrives, as after a timeout.
pub data Outcome : Type 0 where
  acknowledged untaken unconfirmed : Outcome

pub data Event : Type 0 where
  -- `enqueue`
  enqueue : Dict Json → Event
  -- one turn of the loop of `_run`
  turn : Outcome → Event
  -- a request to which the process does not see the answer, and the start of the next process
  crash : Outcome → Event

-- What the sink has then.
abbrev pub taken : Outcome → Dict Json → List (Dict Json) → List (Dict Json)
taken untaken r received = received
taken _ r received = received ++ r ∷ []

-- `_send` of the oldest file, and the back-off in seconds.
unfoldable pub send_first : Outcome → Forwarder → List (Dict Json) → Forwarder
send_first o f [] = record f { backoff = 1 }
send_first acknowledged f (r ∷ rest) = record f {
  spool = rest;
  backoff = 1;
  received = taken acknowledged r f.received;
  sent = f.sent ++ r ∷ [];
}
send_first o f (r ∷ rest) = record f {
  backoff = min (f.backoff * 2) 60;
  received = taken o r f.received;
}

-- The file stays, and the back-off starts again.
unfoldable pub crash_first : Outcome → Forwarder → List (Dict Json) → Forwarder
crash_first o f [] = record f { backoff = 1 }
crash_first o f (r ∷ rest) = record f { backoff = 1; received = taken o r f.received }

unfoldable pub on_event : Event → Forwarder → Forwarder
on_event (enqueue r) f = record f { spool = f.spool ++ r ∷ [] }
on_event (turn o) f = send_first o f f.spool
on_event (crash o) f = crash_first o f f.spool

unfoldable pub on_events : List Event → Forwarder → Forwarder
on_events [] f = f
on_events (e ∷ es) f = on_events es (on_event e f)

-- `flush_once`, with the answers of the sink: how many were sent, and what is left. Without an answer
-- the sink is unreachable.
unfoldable pub flush_once : List Bool → List (Dict Json) → ℕ × List (Dict Json)
flush_once answers [] = (0, [])
flush_once [] (r ∷ rest) = (0, r ∷ rest)
flush_once (answer ∷ answers) (r ∷ rest) =
    let later = flush_once answers rest in if answer then (suc later.0, later.1) else (0, r ∷ rest)

-- The records that the events put into the spool.
abbrev pub enqueued : List Event → List (Dict Json)
enqueued [] = []
enqueued (enqueue r ∷ es) = r ∷ enqueued es
enqueued (turn o ∷ es) = enqueued es
enqueued (crash o ∷ es) = enqueued es

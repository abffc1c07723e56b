-- ===== src/Audit/Delivery.antt =====
-- What the forwarder of mcp/src/compliance_mcp/audit.py delivers.
use regulatory_compliance_he.Prelude.{◌≤◌, ◌≡◌, refl, sym, ap, ◌∙◌, List, [], ◌∷◌, ◌++◌, arith}
use mathlib.Core.List.{append-nil, append_assoc}
use regulatory_compliance_he.Prelude.Map.{Dict}
use regulatory_compliance_he.Json.{Json}
use regulatory_compliance_he.Audit.Forwarder.{
  Forwarder, Outcome, acknowledged, untaken, unconfirmed, Event, enqueue, turn, crash, send_first,
  crash_first, on_event, on_events, enqueued,
}

-- The first list is the second, less some of its members.
pub data IsPart : List (Dict Json) → List (Dict Json) → Type 0 where
  done : IsPart [] []
  both : (r : Dict Json) (xs ys : List (Dict Json)) → IsPart xs ys → IsPart (r ∷ xs) (r ∷ ys)
  over : (r : Dict Json) (xs ys : List (Dict Json)) → IsPart xs ys → IsPart xs (r ∷ ys)

IsPart-both :
    (xs ys : List (Dict Json)) (r : Dict Json) → IsPart xs ys → IsPart (xs ++ r ∷ []) (ys ++ r ∷ [])
IsPart-both xs ys r done = both r [] [] done
IsPart-both xs ys r (both s xs' ys' p) =
    both s (xs' ++ r ∷ []) (ys' ++ r ∷ []) (IsPart-both xs' ys' r p)
IsPart-both xs ys r (over s xs' ys' p) =
    over s (xs' ++ r ∷ []) (ys' ++ r ∷ []) (IsPart-both xs' ys' r p)

IsPart-over : (xs ys : List (Dict Json)) (r : Dict Json) → IsPart xs ys → IsPart xs (ys ++ r ∷ [])
IsPart-over xs ys r done = over r [] [] done
IsPart-over xs ys r (both s xs' ys' p) = both s xs' (ys' ++ r ∷ []) (IsPart-over xs' ys' r p)
IsPart-over xs ys r (over s xs' ys' p) = over s xs' (ys' ++ r ∷ []) (IsPart-over xs' ys' r p)

-- What was deleted has been received, and the back-off is between its bounds.
pub record IsSound (f : Forwarder) : Type 0 where
  pub arrived : IsPart f.sent f.received
  pub low : 1 ≤ f.backoff
  pub high : f.backoff ≤ 60

send_first-IsSound :
    (o : Outcome) (f : Forwarder) (files : List (Dict Json))
    → IsSound f
    → IsSound (send_first o f files)
unfolding send_first
send_first-IsSound o f [] h = record { arrived = h.arrived; low = omega arith; high = omega arith }
send_first-IsSound acknowledged f (r ∷ rest) h = record {
  arrived = IsPart-both f.sent f.received r h.arrived;
  low = omega arith;
  high = omega arith;
}
send_first-IsSound untaken f (r ∷ rest) h =
    let low = h.low in record { arrived = h.arrived; low = omega (arith, low); high = omega arith }
send_first-IsSound unconfirmed f (r ∷ rest) h =
    let low = h.low in
    record {
      arrived = IsPart-over f.sent f.received r h.arrived;
      low = omega (arith, low);
      high = omega arith;
    }

crash_first-IsSound :
    (o : Outcome) (f : Forwarder) (files : List (Dict Json))
    → IsSound f
    → IsSound (crash_first o f files)
unfolding crash_first
crash_first-IsSound o f [] h = record { arrived = h.arrived; low = omega arith; high = omega arith }
crash_first-IsSound acknowledged f (r ∷ rest) h = record {
  arrived = IsPart-over f.sent f.received r h.arrived;
  low = omega arith;
  high = omega arith;
}
crash_first-IsSound untaken f (r ∷ rest) h = record {
  arrived = h.arrived;
  low = omega arith;
  high = omega arith;
}
crash_first-IsSound unconfirmed f (r ∷ rest) h = record {
  arrived = IsPart-over f.sent f.received r h.arrived;
  low = omega arith;
  high = omega arith;
}

on_event-IsSound : (e : Event) (f : Forwarder) → IsSound f → IsSound (on_event e f)
unfolding on_event
on_event-IsSound (enqueue r) f h = record { arrived = h.arrived; low = h.low; high = h.high }
on_event-IsSound (turn o) f h = send_first-IsSound o f f.spool h
on_event-IsSound (crash o) f h = crash_first-IsSound o f f.spool h

send_first-kept :
    (o : Outcome) (f : Forwarder) (files : List (Dict Json))
    → f.spool ≡ files
    → (send_first o f files).sent ++ (send_first o f files).spool ≡ f.sent ++ f.spool
unfolding send_first
send_first-kept o f [] e = refl
send_first-kept acknowledged f (r ∷ rest) e =
    append_assoc f.sent (r ∷ []) rest ∙ ap (λ (s : List (Dict Json)). f.sent ++ s) (sym e)
send_first-kept untaken f (r ∷ rest) e = refl
send_first-kept unconfirmed f (r ∷ rest) e = refl

crash_first-kept :
    (o : Outcome) (f : Forwarder) (files : List (Dict Json))
    → (crash_first o f files).sent ++ (crash_first o f files).spool ≡ f.sent ++ f.spool
unfolding crash_first
crash_first-kept o f [] = refl
crash_first-kept o f (r ∷ rest) = refl

-- Whatever the sink answers or takes without an answer, wherever the process stops and however the
-- records arrive: what is deleted and then what is still spooled are the records that were there and
-- those that were enqueued, in order, so none is lost; all that is deleted has been received, in that
-- order, if it was so before; and the back-off stays between 1 and 60 seconds.
pub on_events-IsSound :
    (es : List Event) (f : Forwarder)
    → IsSound f
    → ((on_events es f).sent ++ (on_events es f).spool ≡ (f.sent ++ f.spool) ++ enqueued es)
      × IsSound (on_events es f)
unfolding on_events on_event
on_events-IsSound [] f h = (sym (append-nil (f.sent ++ f.spool)), h)
on_events-IsSound (enqueue r ∷ es) f h =
    let (kept, sound) =
      on_events-IsSound es (record f { spool = f.spool ++ r ∷ [] })
        (on_event-IsSound (enqueue r) f h) in
    (
      kept
          ∙ ap (λ (s : List (Dict Json)). s ++ enqueued es)
              (sym (append_assoc f.sent f.spool (r ∷ [])))
          ∙ append_assoc (f.sent ++ f.spool) (r ∷ []) (enqueued es),
      sound,
    )
on_events-IsSound (turn o ∷ es) f h =
    let (kept, sound) =
      on_events-IsSound es (send_first o f f.spool) (on_event-IsSound (turn o) f h) in
    (
      kept ∙ ap (λ (s : List (Dict Json)). s ++ enqueued es) (send_first-kept o f f.spool refl),
      sound,
    )
on_events-IsSound (crash o ∷ es) f h =
    let (kept, sound) =
      on_events-IsSound es (crash_first o f f.spool) (on_event-IsSound (crash o) f h) in
    (kept ∙ ap (λ (s : List (Dict Json)). s ++ enqueued es) (crash_first-kept o f f.spool), sound)

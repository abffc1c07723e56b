-- ===== src/Store/Tickets.antt =====
-- `TicketSystem` of mcp/src/compliance_mcp/store.py, over the tickets that it has loaded. The JSON
-- that pydantic makes of a ticket for a text search is a parameter.
use regulatory_compliance_he.Prelude.{
  Text, Option, ◌&&◌, ◌||◌, List, keep, any, lower, contains, is_empty, ◌==◌,
}
use regulatory_compliance_he.Models.{Ticket}
use regulatory_compliance_he.Store.Dates.{in_range}

unfoldable pub search :
    (Ticket → Text) → List Ticket → Text → Text → Option Text → Option Text → List Ticket
search dump_json tickets query control_id start end =
    keep
      (λ t.
        (is_empty control_id || any (λ c. c == control_id) t.controls)
        && (is_empty query || contains (lower query) (lower (dump_json t)))
        && in_range t.created start end)
      tickets

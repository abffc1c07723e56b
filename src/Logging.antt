-- ===== src/Logging.antt =====
-- mcp/src/compliance_mcp/logging_setup.py: `JsonFormatter` prints a log record as one JSON object on a
-- line, and `configure_logging` installs the handler.
use regulatory_compliance_he.Prelude.{
  Text, lit, ℕ, ◌≡◌, refl, ◌∙◌, Option, none, some, Bool, true, false, not, ◌||◌, List, [], ◌∷◌,
  arith, any, starts_with, ◌==◌, eq_iff, Bool-cases, inl, inr, if◌then◌else◌,
}
use regulatory_compliance_he.Prelude.Map.{Dict, get, put, get-put}
use regulatory_compliance_he.Json.{Json, str, quote}
use regulatory_compliance_he.Json.OneLine.{has_no_c0}
use regulatory_compliance_he.Json.Plain.{
  print, print_dict, c0-print_dict, entry_text, Holds, print_dict-Holds,
}

-- A record: the time and the message as they are formatted, the attributes of the record in their order,
-- with the values that `default=str` leaves, and the traceback, if there is an exception.
pub record LogRecord : Type 0 where
  pub ts : Text
  pub level : Text
  pub name : Text
  pub message : Text
  pub attributes : Dict Json
  pub exception : Option Text

-- `_STANDARD_ATTRS`, of Python 3.12
unfoldable pub standard_attrs : List Text
standard_attrs =
    lit "name"
    ∷ lit "msg"
    ∷ lit "args"
    ∷ lit "levelname"
    ∷ lit "levelno"
    ∷ lit "pathname"
    ∷ lit "filename"
    ∷ lit "module"
    ∷ lit "exc_info"
    ∷ lit "exc_text"
    ∷ lit "stack_info"
    ∷ lit "lineno"
    ∷ lit "funcName"
    ∷ lit "created"
    ∷ lit "msecs"
    ∷ lit "relativeCreated"
    ∷ lit "thread"
    ∷ lit "threadName"
    ∷ lit "processName"
    ∷ lit "process"
    ∷ lit "taskName"
    ∷ lit "message"
    ∷ lit "asctime"
    ∷ []

-- An attribute that was passed by `extra=`.
unfoldable pub is_extra : Text → Bool
unfolding standard_attrs
is_extra key = not (any (λ s. s == key) standard_attrs || starts_with key (lit "_"))

unfoldable pub with_extras : Dict Json → Dict Json → Dict Json
unfolding is_extra
with_extras payload [] = payload
with_extras payload ((key, value) ∷ attrs) =
    let taken = with_extras (put payload key value) attrs in
    let passed = with_extras payload attrs in if is_extra key then taken else passed

abbrev with_exception : Option Text → Dict Json → Dict Json
with_exception none payload = payload
with_exception (some text) payload = put payload (lit "exception") (str text)

abbrev pub base_payload : LogRecord → Dict Json
base_payload r =
    (lit "ts", str r.ts)
    ∷ (lit "level", str r.level)
    ∷ (lit "logger", str r.name)
    ∷ (lit "message", str r.message)
    ∷ []

unfoldable pub payload_of : LogRecord → Dict Json
unfolding with_extras
payload_of r = with_exception r.exception (with_extras (base_payload r) r.attributes)

-- `format`
unfoldable pub format : LogRecord → Text
unfolding payload_of
format r = print_dict (payload_of r)

-- The formatters of the handlers on standard error.
pub data Handler : Type 0 where
  json_handler text_handler : Handler

-- The root logger.
pub record Root : Type 0 where
  pub level : ℕ
  pub handlers : List Handler

-- `configure_logging` replaces all handlers by one.
unfoldable pub configure_logging : Bool → ℕ → Root → Root
configure_logging json_output level root = record {
  level = level;
  handlers = (if json_output then json_handler else text_handler) ∷ [];
}

-- A key that no extra attribute has keeps its value.
get-with_extras :
    (payload attrs : Dict Json) (k : Text)
    → is_extra k ≡ false
    → get (with_extras payload attrs) k ≡ get payload k
unfolding with_extras
get-with_extras payload [] k h = refl
get-with_extras payload ((j, v) ∷ attrs) k h =
    let taken = get-with_extras (put payload j v) attrs k h in
    let passed = get-with_extras payload attrs k h in
    let put_other = get-put payload j k v in ground (arith, taken, passed, put_other, eq_iff j k, h)

-- What the exception adds.
get-with_exception :
    (x : Option Text) (payload : Dict Json) (k : Text)
    → (k == lit "exception") ≡ false
    → get (with_exception x payload) k ≡ get payload k
get-with_exception none payload k h = refl
get-with_exception (some t) payload k h =
    let put_other = get-put payload (lit "exception") k (str t) in
    ground (arith, put_other, eq_iff (lit "exception") k, eq_iff k (lit "exception"), h)

exception-is_extra : (k : Text) → is_extra k ≡ false → (k == lit "exception") ≡ false
unfolding is_extra standard_attrs any starts_with ◌==◌ lit
exception-is_extra k h = elim (Bool-cases (k == lit "exception")) [
  | inl here ↦
      let other : is_extra (lit "exception") ≡ true = refl in
      let same = (eq_iff k (lit "exception")).0 here in cc
  | inr there ↦ there
]

message-is_extra : is_extra (lit "message") ≡ false
unfolding is_extra standard_attrs any starts_with ◌==◌ lit
message-is_extra = refl

get-payload_of :
    (r : LogRecord) (k : Text) → is_extra k ≡ false → get (payload_of r) k ≡ get (base_payload r) k
unfolding payload_of
get-payload_of r k h =
    get-with_exception r.exception (with_extras (base_payload r) r.attributes) k
      (exception-is_extra k h)
    ∙ get-with_extras (base_payload r) r.attributes k h

get_message : (r : LogRecord) → get (base_payload r) (lit "message") ≡ some (str r.message)
unfolding get ◌==◌ lit
get_message r = refl

-- Whatever is logged, the text of a record has no character below U+0020, so no LF and no CR; the
-- message stands in it behind its key; and in the object that is printed a key that is a standard
-- attribute or begins with an underscore has no value from the attributes of the record.
pub format_lem :
    (r : LogRecord) (k : Text)
    → is_extra k ≡ false
    → (has_no_c0 (format r) ≡ true)
      × Holds (format r) (entry_text (lit "message") (quote r.message))
      × (get (payload_of r) k ≡ get (base_payload r) k)
unfolding format print
format_lem r k h = (
  c0-print_dict (payload_of r),
  print_dict-Holds (payload_of r) (lit "message") (str r.message)
      (get-payload_of r (lit "message") message-is_extra ∙ get_message r),
  get-payload_of r k h,
)

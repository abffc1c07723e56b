-- ===== src/Audit/Record.antt =====
-- The records of mcp/src/compliance_mcp/audit.py: what one holds, its hash and its MAC.
use regulatory_compliance_he.Prelude.{
  Text, String, lit, Option, none, some, Bool, not, ◌||◌, List, [], ◌∷◌, ◌++◌, map, keep, any, take,
  contains, lower, is_empty, ◌==◌, if◌then◌else◌,
}
use regulatory_compliance_he.Prelude.Int.{pos}
use regulatory_compliance_he.Prelude.Map.{Dict, get, put}
use regulatory_compliance_he.Json.{Json, number, str, obj, Members, end, member, dumps}

-- `GENESIS`
abbrev pub genesis : Text
genesis = lit "0000000000000000000000000000000000000000000000000000000000000000"

-- `_canonical`: the bytes are given by the text that they encode.
unfoldable pub canonical : Dict Json → Text
canonical record_ = dumps (lit ",") (lit ":") record_

secret_words : List Text
secret_words = lit "token" ∷ lit "secret" ∷ lit "password" ∷ lit "api_key" ∷ []

is_secret : Text → Bool
unfolding secret_words
is_secret key = any (λ s. contains s (lower key)) secret_words

unfoldable pub redact : Dict Json → Dict Json
unfolding is_secret
redact args = map (λ m. (m.0, if is_secret m.0 then str (lit "[redacted]") else m.1)) args

members_of : Dict Json → Members
members_of [] = end
members_of ((k, v) ∷ d) = member k v (members_of d)

-- The arguments of `AuditLog.write`.
pub record Entry : Type 0 where
  pub requester : Text
  pub tool : Text
  pub args : Dict Json
  pub outcome : Text
  pub result_summary : Text
  pub session_id : Text
  pub directory_version : Text

-- A UUID and the time, as a record carries them.
pub record Moment : Type 0 where
  pub uuid : Text
  pub ts : Text

-- The keys of a record in the order in which the code writes them.
unfoldable pub fields :
    Text → Moment → Json → Text → Text → Text → Text → Json → Text → Text → Json → Dict Json
fields agent_id moment seq requester session_id directory_version tool args outcome summary prev =
    (lit "id", str moment.uuid)
    ∷ (lit "seq", seq)
    ∷ (lit "ts", str moment.ts)
    ∷ (lit "agent_id", str agent_id)
    ∷ (lit "requester", str requester)
    ∷ (lit "session_id", str session_id)
    ∷ (lit "directory_version", str directory_version)
    ∷ (lit "tool", str tool)
    ∷ (lit "args", args)
    ∷ (lit "outcome", str outcome)
    ∷ (lit "result_summary", str summary)
    ∷ (lit "prev_hash", prev)
    ∷ []

-- The record of a call before its hash.
unfoldable pub body_of : Text → Moment → Json → Json → Entry → Dict Json
unfolding members_of
body_of agent_id moment seq prev_hash e =
    fields agent_id moment seq e.requester e.session_id e.directory_version e.tool
      (obj (members_of (redact e.args))) e.outcome (take 2000 e.result_summary) prev_hash

-- The marker that starts a new file, before its hash.
unfoldable pub marker_of : Text → Moment → Text → Json → Dict Json
marker_of agent_id moment name head =
    fields agent_id moment (number (pos 0)) [] [] [] (lit "audit_rotate")
      (obj (member (lit "continues") (str name) end)) (lit "ok")
      (lit "chain continues from " ++ name) head

-- The text under a key, if a text stands there.
unfoldable pub text_of : Option Json → Option Text
text_of (some (str t)) = some t
text_of _ = none

unfoldable pub get_text : Dict Json → String → Option Text
get_text d k = text_of (get d (lit k))

-- Neither `hash` nor `mac`.
abbrev pub is_record_key : Text → Bool
is_record_key k = not ((k == lit "hash") || (k == lit "mac"))

-- `{k: v for k, v in rec.items() if k not in ("hash", "mac")}`
unfoldable pub without_seals : Dict Json → Dict Json
without_seals d = keep (λ m. is_record_key m.0) d

-- `_digest`
unfoldable pub digest : (Text → Text) → Dict Json → Text
digest sha256 d = sha256 (canonical d)

-- The hash and, under a key, the MAC are added to the record.
unfoldable pub seal : (Text → Text) → (Text → Text → Text) → Text → Dict Json → Dict Json
seal sha256 hmac key body =
    let hash = digest sha256 body in
    let hashed = put body (lit "hash") (str hash) in
    if is_empty key then hashed else put hashed (lit "mac") (str (hmac key hash))

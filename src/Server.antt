-- ===== src/Server.antt =====
-- mcp/src/compliance_mcp/server.py: the identity of a caller. The headers are a dictionary of texts;
-- `none` stands for a call without a context.
pub mod Spoofing
pub mod Edge
use regulatory_compliance_he.Prelude.{
  Text, Option, none, some, Bool, true, false, not, ◌&&◌, List, [], ◌∷◌, lower, strip, is_empty,
  is_blank, ◌==◌, if◌then◌else◌,
}
use regulatory_compliance_he.Prelude.Map.{Dict, get, put}
use regulatory_compliance_he.Models.{IdentitySource, header, parameter, CallerIdentity}

pub data IdentityMode : Type 0 where
  by_header by_parameter : IdentityMode

-- The settings that the identity depends on.
pub record IdentitySettings : Type 0 where
  pub identity_mode : IdentityMode
  pub identity_header : Text
  pub identity_header_strict : Bool
  pub session_header : Text

unfoldable pub lower_keys : Dict Text → Dict Text → Dict Text
lower_keys headers [] = headers
lower_keys headers ((k, v) ∷ raw) = lower_keys (put headers (lower k) v) raw

-- `{k.lower(): v for k, v in (ctx.headers or {}).items()} if ctx else {}`
unfoldable pub headers_of : Option (Dict Text) → Dict Text
headers_of none = []
headers_of (some raw) = lower_keys [] raw

abbrev pub or_empty : Option Text → Text
or_empty none = []
or_empty (some t) = t

-- What the gateway says.
unfoldable pub from_header : IdentitySettings → Option (Dict Text) → Text
from_header s ctx = strip (or_empty (get (headers_of ctx) s.identity_header))

abbrev pub session_of : IdentitySettings → Option (Dict Text) → Text
session_of s ctx = or_empty (get (headers_of ctx) s.session_header)

-- The parameter is given and differs from the header.
abbrev pub disagrees : Text → Text → Bool
disagrees requester_param name =
    not (is_blank requester_param) && not (lower (strip requester_param) == lower name)

unfoldable pub header_identity : IdentitySettings → Text → Text → Text → CallerIdentity
header_identity s name requester_param session_id =
    if is_empty name
    then record { requester = []; source = header; session_id = session_id }
    else if s.identity_header_strict && disagrees requester_param name
    then record { requester = []; source = header; session_id = session_id }
    else record { requester = name; source = header; session_id = session_id }

unfoldable pub identity_by : IdentityMode → IdentitySettings → Text → Text → Text → CallerIdentity
identity_by by_header s name requester_param session_id =
    header_identity s name requester_param session_id
identity_by by_parameter s name requester_param session_id = record {
  requester = requester_param;
  source = parameter;
  session_id = session_id;
}

-- `_caller_identity`
unfoldable pub caller_identity : IdentitySettings → Option (Dict Text) → Text → CallerIdentity
caller_identity s ctx requester_param =
    identity_by s.identity_mode s (from_header s ctx) requester_param (session_of s ctx)

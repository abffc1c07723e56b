-- ===== src/Models/Identity.antt =====
-- The identity types of mcp/src/compliance_mcp/models.py. A `StrEnum` or a `Literal` is a data type.
use regulatory_compliance_he.Prelude.{Text, Bool, List}

pub data IdentitySource : Type 0 where
  header parameter : IdentitySource

pub record CallerIdentity : Type 0 where
  pub requester : Text
  pub source : IdentitySource
  pub session_id : Text

pub data AccountKind : Type 0 where
  person service : AccountKind

pub record User : Type 0 where
  pub id : Text
  pub upn : Text
  pub name : Text
  pub groups : List Text
  pub active : Bool
  pub kind : AccountKind

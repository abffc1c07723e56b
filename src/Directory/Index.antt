-- ===== src/Directory/Index.antt =====
-- The index that mcp/src/compliance_mcp/directory.py builds of the users file.
use regulatory_compliance_he.Prelude.{
  Text, ◌≡◌, refl, Option, none, some, ◌||◌, List, [], ◌∷◌, arith, ◌==◌, lower, if◌then◌else◌,
}
use regulatory_compliance_he.Prelude.Map.{Dict, get, put, get-put}
use regulatory_compliance_he.Models.{User}
use regulatory_compliance_he.Directory.{index_from, index}

-- The last user of the file whose id or UPN, in lower case, is the key.
abbrev pub last_named : Text → List User → Option User
last_named key [] = none
last_named key (user ∷ users) = elim (last_named key users) [
  | none ↦ if (lower user.id == key) || (lower user.upn == key) then some user else none
  | some later ↦ some later
]

get-index_from :
    (key : Text) (users : List User) (d : Dict User)
    → get (index_from d users) key
      ≡ elim (last_named key users) [ none ↦ get d key | some user ↦ some user ]
unfolding index_from
get-index_from key [] d = refl
get-index_from key (user ∷ users) d = ground (
  arith,
  get-index_from key users (put (put d (lower user.id) user) (lower user.upn) user),
  get-put (put d (lower user.id) user) (lower user.upn) key user,
  get-put d (lower user.id) key user,
)

-- A look-up in the index finds the last user of the file whose id or UPN is the key, whatever the
-- case of their letters, and nothing if there is none.
pub get-index : (key : Text) (users : List User) → get (index users) key ≡ last_named key users
unfolding index get
get-index key users = ground (arith, get-index_from key users [])

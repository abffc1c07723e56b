-- ===== src/Directory/Freshness.antt =====
-- Which snapshot of the users file mcp/src/compliance_mcp/directory.py answers from.
use regulatory_compliance_he.Prelude.{
  Text, ℕ, ◌+◌, ◌≤◌, ◌≡◌, ◌≢◌, refl, inl, inr, Option, none, some, Bool, false, List, arith, ok,
  err, Bool-cases, take, ltb, is_empty, nat_eq, not, ◌&&◌,
}
use regulatory_compliance_he.Models.{User}
use regulatory_compliance_he.Directory.{
  access_denied, load_error, UsersFile, Directory, index, key_of, inactive, check_user, look_up,
  install, load, resolve,
}
use regulatory_compliance_he.Directory.Index.{last_named, get-index}

module _ (sha256 : Text → Text) (parse_users : Text → Option (List User)) where
  -- The users and the version that a directory holds are those of one content of the file.
  pub record IsSnapshot (d : Directory) : Type 0 where
    pub raw : Text
    pub listed : List User
    pub parsed : parse_users raw ≡ some listed
    pub indexed : d.users ≡ index listed
    pub stamped : d.version ≡ take 16 (sha256 raw)

  install-IsSnapshot :
      (file : UsersFile) (parse : Option (List User)) (d : Directory)
      → parse_users file.raw ≡ parse
      → IsSnapshot d
      → IsSnapshot (install sha256 parse_users file parse d).1
  unfolding install
  install-IsSnapshot file none d e s = s
  install-IsSnapshot file (some users) d e s = record {
    raw = file.raw;
    listed = users;
    parsed = e;
    indexed = refl;
    stamped = refl;
  }

  -- Whatever becomes of the file, a reload leaves the users and the version of one snapshot; it is
  -- the old one if the reload fails.
  pub load-IsSnapshot :
      (force : Bool) (now : ℕ) (file : UsersFile) (d : Directory)
      → IsSnapshot d
      → IsSnapshot (load sha256 parse_users force now file d).1
  unfolding load
  load-IsSnapshot force now file d s =
      elim (Bool-cases (not force && ltb now (d.checked_at + d.ttl))) [
        | inl e ↦ rw e s
        | inr e ↦ rw e (elim (Bool-cases (not force && nat_eq file.mtime d.mtime)) [
          | inl same ↦ rw same (kept s)
          | inr changed ↦
              rw changed (install-IsSnapshot file (parse_users file.raw) _ refl (kept s))
        ])
      ]
    where
      kept : IsSnapshot d → IsSnapshot (record d { checked_at = now })
      kept h = record {
        raw = h.raw;
        listed = h.listed;
        parsed = h.parsed;
        indexed = h.indexed;
        stamped = h.stamped;
      }

  load_failed :
      (force : Bool) (now : ℕ) (file : UsersFile) (d : Directory)
      → (load sha256 parse_users force now file d).0 ≡ err load_error
      → ((load sha256 parse_users force now file d).1.users ≡ d.users)
        × ((load sha256 parse_users force now file d).1.version ≡ d.version)
  unfolding load install
  load_failed force now file d h = ground arith

  -- After the window, a changed file that parses is what the next call is resolved in.
  load-changed :
      (now : ℕ) (file : UsersFile) (d : Directory) (users : List User)
      → d.checked_at + d.ttl ≤ now
      → file.mtime ≢ d.mtime
      → parse_users file.raw ≡ some users
      → load sha256 parse_users false now file d ≡ (
        ok tt,
        record d {
          users = index users;
          version = take 16 (sha256 file.raw);
          mtime = file.mtime;
          checked_at = now;
        },
      )
  unfolding load
  load-changed now file d users due changed parsed =
      let late : ltb now (d.checked_at + d.ttl) ≡ false = ground arith in
      let other : nat_eq file.mtime d.mtime ≡ false = ground arith in
      rw (late, other, parsed, install)

  -- Once the window has passed, a user whom the new file marks inactive is refused.
  pub resolve_deactivated :
      (requester : Text) (now : ℕ) (file : UsersFile) (d : Directory) (users : List User)
      (user : User)
      → d.checked_at + d.ttl ≤ now
      → file.mtime ≢ d.mtime
      → parse_users file.raw ≡ some users
      → is_empty (key_of requester) ≡ false
      → last_named (key_of requester) users ≡ some user
      → user.active ≡ false
      → (resolve sha256 parse_users requester now file d).0
        ≡ err (access_denied (inactive requester))
  unfolding resolve look_up check_user
  resolve_deactivated requester now file d users user due changed parsed named listed off = rw (
    load-changed now file d users due changed parsed,
    named,
    get-index (key_of requester) users,
    listed,
    check_user,
    off,
  )

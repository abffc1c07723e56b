-- ===== src/Directory/Access.antt =====
-- Who passes the checks of mcp/src/compliance_mcp/directory.py.
use regulatory_compliance_he.Prelude.{
  Text, ℕ, ◌≡◌, ◌↔◌, refl, Option, some, true, false, List, Memᴰ, any_eq-Mem, arith, Result, ok,
  err, is_empty,
}
use regulatory_compliance_he.Prelude.Map.{get}
use regulatory_compliance_he.Models.{User, person}
use regulatory_compliance_he.Directory.{
  DirectoryError, UsersFile, Directory, key_of, member, in_group, approver_group, check_user,
  look_up, check_group, check_person, and_then, after_load, load, resolve, require_group,
  require_approver,
}

-- What has to hold of the user that a name stands for.
pub record IsActiveUser (d : Directory) (requester : Text) (user : User) : Type 0 where
  pub named : is_empty (key_of requester) ≡ false
  pub listed : get d.users (key_of requester) ≡ some user
  pub active : user.active ≡ true

look_up-eq-ok :
    (d : Directory) (requester : Text) (user : User)
    → (look_up d.users requester ≡ ok user) ↔ IsActiveUser d requester user
unfolding look_up check_user
look_up-eq-ok d requester user = (
  λ e. record { named = ground arith; listed = ground arith; active = ground arith },
  λ h. rw (h.named, h.listed, check_user, h.active),
)

-- ... and to approve: a person in the approver group.
pub record IsApprover (d : Directory) (requester : Text) (user : User) : Type 0 where
  pub user_ok : IsActiveUser d requester user
  pub grouped : in_group user approver_group ≡ true
  pub human : user.kind ≡ person

check_group-eq-ok :
    (group : Text) (u user : User)
    → (check_group group u ≡ ok user) ↔ ((u ≡ user) × (in_group user group ≡ true))
unfolding check_group
check_group-eq-ok group u user = (λ e. ground arith, λ h. ground arith)

check_person-eq-ok :
    (u user : User) → (check_person u ≡ ok user) ↔ ((u ≡ user) × (user.kind ≡ person))
unfolding check_person
check_person-eq-ok u user = (λ e. ground arith, λ h. ground arith)

member-Mem : (group : Text) (groups : List Text) → member group groups ≡ true → Memᴰ group groups
unfolding member
member-Mem group groups h = any_eq-Mem group groups h

pub in_group-Mem :
    (user : User) (group : Text) → in_group user group ≡ true → Memᴰ group user.groups
unfolding in_group
in_group-Mem user group h = member-Mem group user.groups h

-- Inversion of a check on the outcome of another.
and_then-eq-ok :
    (m : Result DirectoryError User × Directory) (f : User → Result DirectoryError User) (u : User)
    → ((and_then m f).0 ≡ ok u) ↔ ((v : User) × (m.0 ≡ ok v) × (f v ≡ ok u))
and_then-eq-ok (ok v, d) f u = (λ e. (v, refl, e), λ h. ground arith)
and_then-eq-ok (err x, d) f u = (λ e. cc, λ h. cc (h.1))

after_load-eq-ok :
    (l : Result DirectoryError (Unit {0}) × Directory) (f : Directory → Result DirectoryError User)
    (u : User)
    → ((after_load l f).0 ≡ ok u) ↔ ((l.0 ≡ ok tt) × (f l.1 ≡ ok u))
after_load-eq-ok (ok t, d) f u = (λ e. (refl, e), λ h. h.1)
after_load-eq-ok (err x, d) f u = (λ e. cc, λ h. cc (h.0))

module _ (sha256 : Text → Text) (parse_users : Text → Option (List User)) (requester : Text)
    (now : ℕ) (file : UsersFile) (d : Directory) (user : User) where
  abbrev reloaded : Result DirectoryError (Unit {0}) × Directory
  reloaded = load sha256 parse_users false now file d

  -- A call is resolved exactly to the active user whose id or UPN it names, in the directory that
  -- the reload has left; if the reload fails, to nobody.
  pub resolve-eq-ok :
      ((resolve sha256 parse_users requester now file d).0 ≡ ok user)
      ↔ ((reloaded.0 ≡ ok tt) × IsActiveUser reloaded.1 requester user)
  unfolding resolve
  resolve-eq-ok =
      let (to, from) = after_load-eq-ok reloaded (λ d'. look_up d'.users requester) user in
      (
        λ e. ((to e).0, (look_up-eq-ok reloaded.1 requester user).0 (to e).1),
        λ (e, h). from (e, (look_up-eq-ok reloaded.1 requester user).1 h),
      )

  -- A group check passes exactly for an active user of the group.
  pub require_group-eq-ok :
      (group : Text)
      → ((require_group sha256 parse_users requester group now file d).0 ≡ ok user) ↔ (
          (reloaded.0 ≡ ok tt)
          × IsActiveUser reloaded.1 requester user
          × (in_group user group ≡ true))
  unfolding require_group
  require_group-eq-ok group =
      let chain =
        and_then-eq-ok (resolve sha256 parse_users requester now file d) (check_group group) user in
      (
        λ e.
            let (v, resolved, passed) = chain.0 e in
            let (same, grouped) = (check_group-eq-ok group v user).0 passed in
            let (loaded, active) = resolve-eq-ok.0 (rw same at resolved) in
            (loaded, active, grouped),
        λ h.
            chain.1
              (user, resolve-eq-ok.1 (h.0, h.1), (check_group-eq-ok group user user).1 (refl, h.2)),
      )

  -- An approver is exactly an active person in the approver group; a service account never is.
  pub require_approver-eq-ok :
      ((require_approver sha256 parse_users requester now file d).0 ≡ ok user)
      ↔ ((reloaded.0 ≡ ok tt) × IsApprover reloaded.1 requester user)
  unfolding require_approver
  require_approver-eq-ok =
      let chain =
        and_then-eq-ok (require_group sha256 parse_users requester approver_group now file d)
          check_person user in
      (
        λ e.
            let (v, grouped, passed) = chain.0 e in
            let (same, human) = (check_person-eq-ok v user).0 passed in
            let (loaded, active, member) =
              (require_group-eq-ok approver_group).0 (rw same at grouped) in
            (loaded, record { user_ok = active; grouped = member; human = human }),
        λ h. chain.1 (
          user,
          (require_group-eq-ok approver_group).1 (h.0, h.1.user_ok, h.1.grouped),
          (check_person-eq-ok user user).1 (refl, h.1.human),
        ),
      )

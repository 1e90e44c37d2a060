-- ===== src/Tenancy/OrgRuns.antt =====
-- What holds of organisations after any calls, and who may change them
-- (src/tenancy/org-service.ts).
use platform_core.Base.{
  ℕ, ◌≡◌, ◌≢◌, refl, Bool, true, ◌==◌, Option, none, some, List, [], nat_eq, arith,
}
use platform_core.Base.Dict.{lookup, update, lookup-update, insert_new-eq_of_lookup}
use mathlib.Core.Option
use platform_core.Tenancy.Types.{
  Tenant, personal, org, owner, admin, GivenRole, OrgMemberRow, Db, pair_eq, ok,
}
use platform_core.Tenancy.Repository.{
  get_by_id, OrgUpdate, find_member, add_member, ensure_personal_tenant, update_owner,
  update_member_role, personal_tenant,
}
use platform_core.Tenancy.Service.{
  member_row, get_or_create_personal_org, FirstMember, orphaned, create_org, update_org, delete_org,
  invite_member, revoke_invite, change_role, remove_member, transfer_ownership, accept_invite,
}
use platform_core.Tenancy.Owned.{IsOwned, holds_owner}
use platform_core.Tenancy.Writes.{holds_owner-insert_new}
use platform_core.Tenancy.Ownership.{
  update_org-IsOwned, delete_org-IsOwned, revoke_invite-IsOwned, change_role-IsOwned,
  remove_member-IsOwned, invite_member-IsOwned, get_or_create_personal_org-IsOwned,
  transfer_ownership-IsOwned, create_org-IsOwned, accept_invite-IsOwned,
}

-- The tables after calls of the service, answered or refused. The id of a new organisation is new, a
-- user's id is not that of a team's organisation, a team's ownership goes to another user, and no delete
-- fails that makes up for a first member that could not be inserted.
pub data Runs : Db → Type 0 where
  empty : Runs (record { tenants = []; members = []; invites = [] })
  personals :
      {db : Db} (member_id now user_id : ℕ) (name : List ℕ)
      → Runs db
      → ((t : Tenant) → lookup user_id db.tenants ≡ some t → t.type ≡ personal)
      → Runs (get_or_create_personal_org member_id now user_id name db)
  creates :
      {db : Db} (outcome : FirstMember) (id member_id now user_id : ℕ) (name : List ℕ)
      (slug : Option (List ℕ))
      → Runs db
      → lookup id db.tenants ≡ none
      → outcome ≢ orphaned
      → Runs (create_org outcome id member_id now user_id name slug db).1
  updates : {db : Db} (o a : ℕ) (u : OrgUpdate) → Runs db → Runs (update_org o a u db).1
  deletes :
      {db : Db} (hook_throws : Bool) (o a : ℕ) → Runs db → Runs (delete_org hook_throws o a db).1
  invites :
      {db : Db} (id token now o a email : ℕ) (r : GivenRole)
      → Runs db
      → Runs (invite_member id token now o a email r db).1
  revokes : {db : Db} (o a i : ℕ) → Runs db → Runs (revoke_invite o a i db).1
  changes : {db : Db} (o a u : ℕ) (r : GivenRole) → Runs db → Runs (change_role o a u r db).1
  removes : {db : Db} (o a u : ℕ) → Runs db → Runs (remove_member o a u db).1
  transfers :
      {db : Db} (o a u : ℕ)
      → Runs db
      → a ≢ u
      → ((t : Tenant) → lookup o db.tenants ≡ some t → t.type ≡ org)
      → Runs (transfer_ownership o a u db).1
  accepts :
      {db : Db} (member_id now token user_id : ℕ)
      → Runs db
      → Runs (accept_invite member_id now token user_id db).1

-- After calls of the service, refused ones included, in which no new organisation has an id that is
-- taken, no user who asks for a personal organisation has the id of a team's, only a team's ownership is
-- transferred and never to the caller, and the delete does not fail that makes up for a first member that
-- could not be inserted: the members of an organisation with the role of owner are exactly the user that
-- its row names as owner; what has no row has no members and no invites; and a personal organisation is
-- owned by its own user.
pub Runs-IsOwned : {db : Db} → Runs db → IsOwned db
unfolding lookup
Runs-IsOwned empty = record {
  owned = λ o u t q. cc;
  housed = λ o u q. refl;
  invited = tt;
  own = λ o t q. cc;
}
Runs-IsOwned (personals {db} m now u name r p) =
    get_or_create_personal_org-IsOwned db (Runs-IsOwned r) m now u name p
Runs-IsOwned (creates {db} f id m now u name slug r p q) =
    create_org-IsOwned db (Runs-IsOwned r) f id m now u name slug p q
Runs-IsOwned (updates {db} o a u r) = update_org-IsOwned db (Runs-IsOwned r) o a u
Runs-IsOwned (deletes {db} b o a r) = delete_org-IsOwned db (Runs-IsOwned r) b o a
Runs-IsOwned (invites {db} id token now o a email g r) =
    invite_member-IsOwned db (Runs-IsOwned r) id token now o a email g
Runs-IsOwned (revokes {db} o a i r) = revoke_invite-IsOwned db (Runs-IsOwned r) o a i
Runs-IsOwned (changes {db} o a u g r) = change_role-IsOwned db (Runs-IsOwned r) o a u g
Runs-IsOwned (removes {db} o a u r) = remove_member-IsOwned db (Runs-IsOwned r) o a u
Runs-IsOwned (transfers {db} o a u r p q) = transfer_ownership-IsOwned db (Runs-IsOwned r) o a u p q
Runs-IsOwned (accepts {db} m now token u r) =
    accept_invite-IsOwned db (Runs-IsOwned r) m now token u

-- An owner, with a row among the members, who transfers the ownership to themselves succeeds and gets the
-- role of admin, while the organisation's row still names them as owner.
pub transfer_to_self :
    (o a : ℕ) (db : Db) (t : Tenant) (m : OrgMemberRow)
    → lookup o db.tenants ≡ some t
    → t.owner_id ≡ a
    → lookup (o, a) db.members ≡ some m
    → let after = transfer_ownership o a a db in
      (after.0 ≡ ok tt)
      × (Option.map (λ (x : OrgMemberRow). x.role) (lookup (o, a) after.1.members) ≡ some admin)
      × (Option.map (λ (x : Tenant). x.owner_id) (lookup o after.1.tenants) ≡ some a)
unfolding transfer_ownership get_by_id find_member update_owner update_member_role
transfer_to_self o a db t m found owns there =
    let own : ((t.owner_id == a) ≡ true) = ground arith in
    rw (found, own, there)
      (
        refl,
        ground (
          arith,
          lookup-update (o, a) (o, a) (λ (x : OrgMemberRow). record x { role = admin })
              (update (o, a) (λ (x : OrgMemberRow). record x { role = owner }) db.members),
          lookup-update (o, a) (o, a) (λ (x : OrgMemberRow). record x { role = owner }) db.members,
        ),
        ground (arith, lookup-update o o (λ (x : Tenant). record x { owner_id = a }) db.tenants),
      )

-- A user whose personal organisation has another owner and who is no member of it becomes a second owner
-- by asking for it: they get the role, and the row still names the other one.
pub second_owner :
    (member_id now a : ℕ) (name : List ℕ) (db : Db) (t : Tenant)
    → lookup a db.tenants ≡ some t
    → t.owner_id ≢ a
    → lookup (a, a) db.members ≡ none
    → let after = get_or_create_personal_org member_id now a name db in
      (holds_owner (lookup (a, a) after.members) ≡ true) × (lookup a after.tenants ≡ some t)
unfolding get_or_create_personal_org ensure_personal_tenant add_member
second_owner member_id now a name db t found other gone = (
  ground (
    arith,
    holds_owner-insert_new (a, a) (a, a) (member_row member_id now owner) db.members gone,
  ),
  rw (insert_new-eq_of_lookup a (personal_tenant now a name) db.tenants found) found,
)

-- ===== src/Tenancy/Service.antt =====
-- OrgService (src/tenancy/org-service.ts): each method answers or throws, and leaves the tables. The clock
-- and the ids that randomUUID and randomBytes make are arguments.
use platform_core.Base.{
  ℕ, ◌+◌, ◌*◌, Bool, true, false, not, ◌&&◌, ◌==◌, ltb, leb, Option, none, some, List, [], is_some,
  if◌then◌else◌, nat_eq, ⊤,
}
use platform_core.Base.Dict.{update, remove}
use platform_core.Tenancy.Slug.{validate_slug, trim_start, trim_end}
use platform_core.Tenancy.Types.{
  Tenant, Role, owner, admin, member, GivenRole, role_of, OrgMemberRow, OrgInviteRow, Db, pair_eq,
  Result, ok, err, OrgError, blank_name, bad_slug, slug_taken, org_not_found, member_not_found,
  invite_not_found, not_admin_or_owner, not_owner, owner_role_change, owner_removal, last_admin,
  invite_accepted, invite_revoked, invite_expired, already_member, database_error,
}
use platform_core.Tenancy.Repository.{
  get_by_id, get_by_slug, create_org_row, ensure_personal_tenant, OrgUpdate, write_update,
  update_owner, find_member, add_member, update_member_role, remove_member_row, is_admin_or_owner,
  count_admins_and_owners, delete_all_members, delete_all_invites, find_invite_by_id,
  find_invite_by_token, create_invite, delete_invite, mark_invite_accepted,
}

abbrev pub Action : Type 0 → Type 0
Action A = Db → Result A × Db

abbrev pub fail : {A : Type 0} → OrgError → Action A
fail e db = (err e, db)

abbrev pub is_admin_row : Option OrgMemberRow → Bool
is_admin_row none = false
is_admin_row (some m) = is_admin_or_owner m.role

-- What `requireAdminOrOwner` lets pass.
unfoldable pub is_admin_of : ℕ → ℕ → Db → Bool
is_admin_of org_id user_id db = is_admin_row (find_member org_id user_id db)

abbrev pub member_row : ℕ → ℕ → Role → OrgMemberRow
member_row id now role = record { id = id; role = role; joined_at = now }

unfoldable pub get_or_create_personal_org : ℕ → ℕ → ℕ → List ℕ → Db → Db
get_or_create_personal_org member_id now user_id display_name db =
    add_member user_id user_id (member_row member_id now owner)
      (ensure_personal_tenant now user_id display_name db)

-- How the insert of the first member ends, and the delete that makes up for a failure.
pub data FirstMember : Type 0 where
  inserted : FirstMember
  undone : FirstMember
  orphaned : FirstMember

abbrev pub is_blank : List ℕ → Bool
is_blank name = elim (trim_end (trim_start name)) [ [] ↦ true | _ ↦ false ]

abbrev pub first_member : FirstMember → ℕ → ℕ → ℕ → Result Tenant × Db → Result Tenant × Db
first_member outcome member_id now user_id (err e, db) = (err e, db)
first_member inserted member_id now user_id (ok t, db) =
    (ok t, add_member t.id user_id (member_row member_id now owner) db)
first_member undone member_id now user_id (ok t, db) =
    (err database_error, record db { tenants = remove t.id db.tenants })
first_member orphaned member_id now user_id (ok t, db) = (err database_error, db)

-- The slug that a caller gives is checked; the error, if there is one.
abbrev pub slug_error : (Tenant → Bool) → Option (List ℕ) → Db → Option OrgError
slug_error p none db = none
slug_error p (some s) db =
    if not (validate_slug s)
    then some bad_slug
    else elim (get_by_slug s db) [ none ↦ none | some t ↦ if p t then some slug_taken else none ]

abbrev pub unless_error : {A : Type 0} → Option OrgError → Action A → Action A
unless_error none m = m
unless_error (some e) m = fail e

abbrev pub insert_first : FirstMember → ℕ → ℕ → ℕ → ℕ → List ℕ → Option (List ℕ) → Action Tenant
insert_first outcome id member_id now user_id name slug db =
    first_member outcome member_id now user_id (create_org_row id now user_id name slug db)

unfoldable pub create_org : FirstMember → ℕ → ℕ → ℕ → ℕ → List ℕ → Option (List ℕ) → Action Tenant
create_org outcome id member_id now user_id name slug db =
    if is_blank name
    then fail blank_name db
    else unless_error (slug_error (λ _. true) slug db)
        (insert_first outcome id member_id now user_id name slug) db

abbrev pub with_org : {A : Type 0} → Option Tenant → (Tenant → Action A) → Action A
with_org none k = fail org_not_found
with_org (some t) k = k t

abbrev pub with_member : {A : Type 0} → Option OrgMemberRow → (OrgMemberRow → Action A) → Action A
with_member none k = fail member_not_found
with_member (some m) k = k m

abbrev pub with_invite : {A : Type 0} → Option OrgInviteRow → (OrgInviteRow → Action A) → Action A
with_invite none k = fail invite_not_found
with_invite (some i) k = k i

abbrev pub done : (Db → Db) → Action ⊤
done f db = (ok tt, f db)

abbrev pub written : ℕ → OrgUpdate → Tenant → Action Tenant
written org_id u t db =
    (ok (write_update u t), record db { tenants = update org_id (write_update u) db.tenants })

abbrev pub write_org : ℕ → OrgUpdate → Action Tenant
write_org org_id u db = with_org (get_by_id org_id db) (written org_id u) db

abbrev pub is_other : ℕ → Tenant → Bool
is_other org_id t = not (t.id == org_id)

unfoldable pub update_org : ℕ → ℕ → OrgUpdate → Action Tenant
update_org org_id actor_user_id u db =
    if not (is_admin_of org_id actor_user_id db)
    then fail not_admin_or_owner db
    else unless_error (slug_error (is_other org_id) u.slug db) (write_org org_id u) db

-- The hook `onBeforeDeleteOrg` may throw, and the transaction is rolled back.
unfoldable pub delete_org : Bool → ℕ → ℕ → Action ⊤
delete_org hook_throws org_id actor_user_id db =
    with_org (get_by_id org_id db)
      (λ t.
        if not (t.owner_id == actor_user_id)
        then fail not_owner
        else if hook_throws
        then fail database_error
        else done (λ db'. record {
          tenants = remove org_id db'.tenants;
          members = delete_all_members org_id db'.members;
          invites = delete_all_invites org_id db'.invites;
        }))
      db

abbrev pub week_ms : ℕ
week_ms = 7 * 24 * 60 * 60 * 1000

unfoldable pub invite_member : ℕ → ℕ → ℕ → ℕ → ℕ → ℕ → GivenRole → Action OrgInviteRow
invite_member id token now org_id actor_user_id email role db =
    if not (is_admin_of org_id actor_user_id db)
    then fail not_admin_or_owner db
    else (let invite : OrgInviteRow = record {
      id = id;
      org_id = org_id;
      email = email;
      role = role;
      invited_by = actor_user_id;
      token = token;
      expires_at = now + week_ms;
      created_at = now;
      accepted_at = none;
      revoked_at = none;
    } in
        (ok invite, create_invite invite db))

unfoldable pub revoke_invite : ℕ → ℕ → ℕ → Action ⊤
revoke_invite org_id actor_user_id invite_id db =
    if not (is_admin_of org_id actor_user_id db)
    then fail not_admin_or_owner db
    else with_invite (find_invite_by_id invite_id db)
        (λ i. if i.org_id == org_id then done (delete_invite invite_id) else fail invite_not_found)
        db

unfoldable pub change_role : ℕ → ℕ → ℕ → GivenRole → Action ⊤
change_role org_id actor_user_id target_user_id new_role db =
    if not (is_admin_of org_id actor_user_id db)
    then fail not_admin_or_owner db
    else with_org (get_by_id org_id db)
        (λ t.
          if t.owner_id == target_user_id
          then fail owner_role_change
          else with_member (find_member org_id target_user_id db)
              (λ _. done (update_member_role org_id target_user_id (role_of new_role))))
        db

abbrev pub is_admin_role : Role → Bool
is_admin_role owner = false
is_admin_role admin = true
is_admin_role member = false

unfoldable pub remove_member : ℕ → ℕ → ℕ → Action ⊤
remove_member org_id actor_user_id target_user_id db =
    if not (is_admin_of org_id actor_user_id db)
    then fail not_admin_or_owner db
    else with_org (get_by_id org_id db)
        (λ t.
          if t.owner_id == target_user_id
          then fail owner_removal
          else with_member (find_member org_id target_user_id db) (λ m.
            if is_admin_role m.role && leb (count_admins_and_owners org_id db) 1
            then fail last_admin
            else done (remove_member_row org_id target_user_id)))
        db

unfoldable pub transfer_ownership : ℕ → ℕ → ℕ → Action ⊤
transfer_ownership org_id actor_user_id target_user_id db =
    with_org (get_by_id org_id db)
      (λ t.
        if not (t.owner_id == actor_user_id)
        then fail not_owner
        else with_member (find_member org_id target_user_id db) (λ _. done (λ db'.
          update_owner org_id target_user_id (
            update_member_role org_id actor_user_id admin
              (update_member_role org_id target_user_id owner db')))))
      db

-- A time that JavaScript takes for true.
abbrev pub is_set : Option ℕ → Bool
is_set none = false
is_set (some n) = not (n == 0)

unfoldable pub accept_invite : ℕ → ℕ → ℕ → ℕ → Action (ℕ × Role)
accept_invite member_id now token user_id db =
    with_invite (find_invite_by_token token db)
      (λ i.
        if is_set i.accepted_at
        then fail invite_accepted
        else if is_set i.revoked_at
        then fail invite_revoked
        else if not (i.expires_at == 0) && ltb i.expires_at now
        then fail invite_expired
        else if is_some (find_member i.org_id user_id db)
        then fail already_member
        else (λ db'. (
          ok (i.org_id, role_of i.role),
          mark_invite_accepted now i.id
              (add_member i.org_id user_id (member_row member_id now (role_of i.role)) db'),
        )))
      db

-- ===== src/Tenancy/Repository.antt =====
-- The queries and updates of src/tenancy/drizzle-org-repository.ts and
-- src/tenancy/org-member-repository.ts.
use platform_core.Base.{
  ℕ, suc, Bool, true, false, not, ◌&&◌, ◌==◌, Option, none, some, List, [], ◌∷◌, filter, find?,
  if◌then◌else◌, nat_eq,
}
use platform_core.Base.Dict.{Dict, lookup, insert_new, update, remove}
use platform_core.Tenancy.Slug.{slugify}
use platform_core.Tenancy.Types.{
  Tenant, personal, org, Role, owner, admin, member, OrgMemberRow, OrgInviteRow, Db, pair_eq,
  Result, ok, err, empty_slug, slug_taken,
}

unfoldable pub get_by_id : ℕ → Db → Option Tenant
get_by_id id db = lookup id db.tenants

abbrev pub text_eq : List ℕ → List ℕ → Bool
text_eq [] [] = true
text_eq [] (d ∷ ds) = false
text_eq (c ∷ cs) [] = false
text_eq (c ∷ cs) (d ∷ ds) = (c == d) && text_eq cs ds

abbrev pub has_slug : List ℕ → Option (List ℕ) → Bool
has_slug slug none = false
has_slug slug (some s) = text_eq s slug

abbrev pub first_with_slug : List ℕ → Dict ℕ Tenant → Option Tenant
first_with_slug slug [] = none
first_with_slug slug ((i, t) ∷ ts) =
    if has_slug slug t.slug then some t else first_with_slug slug ts

unfoldable pub get_by_slug : List ℕ → Db → Option Tenant
get_by_slug slug db = first_with_slug slug db.tenants

-- `slug || slugify(name)`: an empty slug counts as none.
abbrev pub final_slug : List ℕ → Option (List ℕ) → List ℕ
final_slug name none = slugify name
final_slug name (some []) = slugify name
final_slug name (some (c ∷ cs)) = c ∷ cs

abbrev pub org_tenant : ℕ → ℕ → ℕ → List ℕ → List ℕ → Tenant
org_tenant id now owner_id name slug = record {
  id = id;
  name = name;
  slug = some slug;
  type = org;
  owner_id = owner_id;
  billing_email = none;
  created_at = now;
}

-- The slug is unique in the table.
abbrev pub insert_unless : Option Tenant → Tenant → Db → Result Tenant × Db
insert_unless none t db = (ok t, record db { tenants = insert_new t.id t db.tenants })
insert_unless (some t') t db = (err slug_taken, db)

abbrev pub insert_org : (List ℕ → Tenant) → List ℕ → Db → Result Tenant × Db
insert_org row [] db = (err empty_slug, db)
insert_org row (c ∷ cs) db = insert_unless (get_by_slug (c ∷ cs) db) (row (c ∷ cs)) db

-- `createOrg` with the id that randomUUID made.
unfoldable pub create_org_row : ℕ → ℕ → ℕ → List ℕ → Option (List ℕ) → Db → Result Tenant × Db
create_org_row id now owner_id name slug =
    insert_org (org_tenant id now owner_id name) (final_slug name slug)

abbrev pub personal_tenant : ℕ → ℕ → List ℕ → Tenant
personal_tenant now user_id display_name = record {
  id = user_id;
  name = display_name;
  slug = none;
  type = personal;
  owner_id = user_id;
  billing_email = none;
  created_at = now;
}

-- The tenant is found afterwards in any case.
unfoldable pub ensure_personal_tenant : ℕ → ℕ → List ℕ → Db → Db
ensure_personal_tenant now user_id display_name db = record db {
  tenants = insert_new user_id (personal_tenant now user_id display_name) db.tenants;
}

-- The columns that are given are written.
pub record OrgUpdate : Type 0 where
  pub name : Option (List ℕ)
  pub slug : Option (List ℕ)
  pub billing_email : Option (Option ℕ)

abbrev pub given {ℓ} : {A : Type ℓ} → Option A → A → A
given none old = old
given (some new) old = new

abbrev pub given_slug : Option (List ℕ) → Option (List ℕ) → Option (List ℕ)
given_slug none old = old
given_slug (some new) old = some new

unfoldable pub write_update : OrgUpdate → Tenant → Tenant
write_update u t = record t {
  name = given u.name t.name;
  slug = given_slug u.slug t.slug;
  billing_email = given u.billing_email t.billing_email;
}

unfoldable pub update_owner : ℕ → ℕ → Db → Db
update_owner org_id new_owner_id db = record db {
  tenants = update org_id (λ (t : Tenant). record t { owner_id = new_owner_id }) db.tenants;
}

unfoldable pub find_member : ℕ → ℕ → Db → Option OrgMemberRow
find_member org_id user_id db = lookup (org_id, user_id) db.members

unfoldable pub add_member : ℕ → ℕ → OrgMemberRow → Db → Db
add_member org_id user_id row db = record db {
  members = insert_new (org_id, user_id) row db.members;
}

unfoldable pub update_member_role : ℕ → ℕ → Role → Db → Db
update_member_role org_id user_id role db = record db {
  members = update (org_id, user_id) (λ (m : OrgMemberRow). record m { role = role }) db.members;
}

unfoldable pub remove_member_row : ℕ → ℕ → Db → Db
remove_member_row org_id user_id db = record db { members = remove (org_id, user_id) db.members }

abbrev pub is_admin_or_owner : Role → Bool
is_admin_or_owner owner = true
is_admin_or_owner admin = true
is_admin_or_owner member = false

abbrev pub count_admins : ℕ → Dict (ℕ × ℕ) OrgMemberRow → ℕ
count_admins org_id [] = 0
count_admins org_id (((o, u), m) ∷ ms) =
    if (o == org_id) && is_admin_or_owner m.role
    then suc (count_admins org_id ms)
    else count_admins org_id ms

unfoldable pub count_admins_and_owners : ℕ → Db → ℕ
count_admins_and_owners org_id db = count_admins org_id db.members

unfoldable pub delete_all_members : ℕ → Dict (ℕ × ℕ) OrgMemberRow → Dict (ℕ × ℕ) OrgMemberRow
delete_all_members org_id [] = []
delete_all_members org_id (((o, u), m) ∷ ms) =
    if o == org_id then delete_all_members org_id ms else ((o, u), m) ∷ delete_all_members org_id ms

unfoldable pub delete_all_invites : ℕ → List OrgInviteRow → List OrgInviteRow
delete_all_invites org_id = filter (λ (i : OrgInviteRow). not (i.org_id == org_id))

unfoldable pub find_invite_by_id : ℕ → Db → Option OrgInviteRow
find_invite_by_id id db = find? (λ (i : OrgInviteRow). i.id == id) db.invites

abbrev pub has_token : ℕ → OrgInviteRow → Bool
has_token token i = i.token == token

unfoldable pub find_invite_by_token : ℕ → Db → Option OrgInviteRow
find_invite_by_token token db = find? (has_token token) db.invites

unfoldable pub create_invite : OrgInviteRow → Db → Db
create_invite i db = record db { invites = i ∷ db.invites }

unfoldable pub delete_invite : ℕ → Db → Db
delete_invite id db = record db {
  invites = filter (λ (i : OrgInviteRow). not (i.id == id)) db.invites;
}

abbrev pub mark_one : ℕ → ℕ → OrgInviteRow → OrgInviteRow
mark_one now id i = if i.id == id then record i { accepted_at = some now } else i

abbrev pub mark_all : ℕ → ℕ → List OrgInviteRow → List OrgInviteRow
mark_all now id [] = []
mark_all now id (i ∷ is) = mark_one now id i ∷ mark_all now id is

unfoldable pub mark_invite_accepted : ℕ → ℕ → Db → Db
mark_invite_accepted now id db = record db { invites = mark_all now id db.invites }

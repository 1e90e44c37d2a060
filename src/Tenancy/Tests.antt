-- ===== src/Tenancy/Tests.antt =====
-- The service on two users and an organisation, and slugs of a few names.
use platform_core.Base.{
  ℕ, ⊤, ◌≡◌, ◌⊎◌, ◌&&◌, refl, true, false, none, some, List, [], ◌∷◌, filter, ◌≤◌, leb, length,
  nat_eq, arith,
}
use platform_core.Base.Dict.{lookup, insert_new, update, remove}
use mathlib.Core.Option
use platform_core.Tenancy.Slug.{slugify, validate_slug, is_space, to_lower}
use platform_core.Tenancy.Slug.Laws.{validate_slug-slugify}
use platform_core.Tenancy.Types.{
  Tenant, TenantType, Role, owner, admin, as_member, OrgMemberRow, Db, pair_eq, ok, err, OrgError,
}
use platform_core.Tenancy.Repository.{
  get_by_id, get_by_slug, create_org_row, ensure_personal_tenant, write_update, update_owner,
  find_member, add_member, update_member_role, remove_member_row, count_admins_and_owners,
  delete_all_members, delete_all_invites, find_invite_by_id, find_invite_by_token, create_invite,
  delete_invite, mark_invite_accepted, has_token,
}
use platform_core.Tenancy.Service.{
  is_admin_of, get_or_create_personal_org, inserted, create_org, update_org, delete_org,
  invite_member, revoke_invite, change_role, remove_member, transfer_ownership, accept_invite,
}
use platform_core.Tenancy.Owned.{IsOwned, holds_owner}
use platform_core.Tenancy.InviteOnce.{Later, accept_invite-once}
use platform_core.Tenancy.OrgRuns.{
  Runs, empty, creates, invites, accepts, transfers, Runs-IsOwned, transfer_to_self, second_owner,
}

tenancy_run : ⊤
unfolding lookup insert_new update remove slugify validate_slug is_space to_lower get_by_id
    get_by_slug create_org_row ensure_personal_tenant write_update update_owner find_member
    add_member update_member_role remove_member_row count_admins_and_owners delete_all_members
    delete_all_invites find_invite_by_id find_invite_by_token create_invite delete_invite
    mark_invite_accepted is_admin_of get_or_create_personal_org create_org update_org delete_org
    invite_member revoke_invite change_role remove_member transfer_ownership accept_invite
tenancy_run = tt

-- "Acme  Co!"
abbrev acme : List ℕ
acme = b'A' ∷ b'c' ∷ b'm' ∷ b'e' ∷ b' ' ∷ b' ' ∷ b'C' ∷ b'o' ∷ b'!' ∷ []

slug_of_acme : slugify acme ≡ b'a' ∷ b'c' ∷ b'm' ∷ b'e' ∷ b'-' ∷ b'c' ∷ b'o' ∷ []
unfolding tenancy_run
slug_of_acme = refl

-- A name of one letter has a slug that is stored and that `validateSlug` refuses.
short_slug : (slugify (b'A' ∷ []) ≡ b'a' ∷ []) × (validate_slug (b'a' ∷ []) ≡ false)
unfolding tenancy_run
short_slug = (refl, refl)

validate_slug-slugify_example :
    validate_slug (slugify acme) ≡ (leb 3 (length (slugify acme)) && leb (length (slugify acme)) 48)
validate_slug-slugify_example = validate_slug-slugify acme

abbrev nothing : Db
nothing = record { tenants = []; members = []; invites = [] }

-- User 1 makes organisation 10 and invites user 2, who accepts.
abbrev made : Db
made = (create_org inserted 10 100 5 1 acme none nothing).1

abbrev invited : Db
invited = (invite_member 50 77 6 10 1 900 as_member made).1

abbrev joined : Db
joined = (accept_invite 101 7 77 2 invited).1

abbrev handed : Db
handed = (transfer_ownership 10 1 2 joined).1

roles_after :
    (holds_owner (lookup (10, 2) handed.members) ≡ true)
    × (holds_owner (lookup (10, 1) handed.members) ≡ false)
unfolding tenancy_run
roles_after = (refl, refl)

joined_run : Runs joined
unfolding tenancy_run
joined_run = accepts 101 7 77 2 (
    invites 50 77 6 10 1 900 as_member (creates inserted 10 100 5 1 acme none empty refl (λ e. cc)))

handed_run : Runs handed
unfolding tenancy_run
handed_run = transfers {db = joined} 10 1 2 joined_run (λ e. cc) (λ t q. ground arith)

Runs-IsOwned_example : IsOwned handed
Runs-IsOwned_example = Runs-IsOwned handed_run

abbrev first_row : OrgMemberRow
first_row = record { id = 100; role = owner; joined_at = 5 }

abbrev team : Tenant
team = record {
  id = 10;
  name = acme;
  slug = some (b'a' ∷ []);
  type = TenantType.org;
  owner_id = 1;
  billing_email = none;
  created_at = 5;
}

abbrev alone : Db
alone = record { tenants = (10, team) ∷ []; members = ((10, 1), first_row) ∷ []; invites = [] }

alone_found :
    (lookup 10 alone.tenants ≡ some team) × (lookup (10, 1) alone.members ≡ some first_row)
unfolding tenancy_run
alone_found = (refl, refl)

transfer_to_self_example :
    let after = transfer_ownership 10 1 1 alone in
    (after.0 ≡ ok tt)
    × (Option.map (λ (x : OrgMemberRow). x.role) (lookup (10, 1) after.1.members) ≡ some admin)
    × (Option.map (λ (x : Tenant). x.owner_id) (lookup 10 after.1.tenants) ≡ some 1)
transfer_to_self_example =
    transfer_to_self 10 1 alone team first_row alone_found.0 refl alone_found.1

-- User 10 asks for the organisation 10, which is user 1's by now.
gone : lookup (10, 10) alone.members ≡ none
unfolding tenancy_run
gone = refl

second_owner_example :
    let after = get_or_create_personal_org 102 9 10 acme alone in
    (holds_owner (lookup (10, 10) after.members) ≡ true) × (lookup 10 after.tenants ≡ some team)
second_owner_example = second_owner 102 9 10 acme alone team alone_found.0 (omega arith) gone

accepted : accept_invite 101 7 77 2 invited ≡ (ok (10, Role.member), joined)
unfolding tenancy_run
accepted = refl

one_invite : length (filter (has_token 77) invited.invites) ≤ 1
unfolding tenancy_run
one_invite = omega arith

-- User 1 hands the organisation over to user 2, who makes another invite; user 3 then tries the token.
abbrev later_on : Db
later_on = (invite_member 51 78 8 10 2 901 as_member handed).1

two_calls : Later 77 joined later_on
two_calls =
    Later.invites 51 78 8 10 2 901 as_member (Later.transfers 10 1 2 Later.at_once) (omega arith)

accept_invite-once_example :
    (accept_invite 103 8 77 3 later_on ≡ (err OrgError.invite_accepted, later_on))
    ⊎ (accept_invite 103 8 77 3 later_on ≡ (err OrgError.invite_not_found, later_on))
accept_invite-once_example =
    accept_invite-once 101 7 77 2 invited one_invite accepted (omega arith) two_calls 103 8 3

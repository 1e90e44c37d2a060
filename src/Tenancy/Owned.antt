-- ===== src/Tenancy/Owned.antt =====
-- Who owns an organisation, by its row and by its members (src/tenancy).
use platform_core.Base.{ℕ, ◌≡◌, Bool, true, false, ◌==◌, Option, none, some, is_some, All, nat_eq}
use platform_core.Base.Dict.{lookup}
use platform_core.Tenancy.Types.{
  Tenant, personal, Role, owner, admin, member, OrgMemberRow, OrgInviteRow, Db, pair_eq,
}

abbrev pub is_owner_role : Role → Bool
is_owner_role owner = true
is_owner_role admin = false
is_owner_role member = false

abbrev pub holds_owner : Option OrgMemberRow → Bool
holds_owner none = false
holds_owner (some m) = is_owner_role m.role

-- The members of an organisation with the role of owner are its owner, no more and no less; without an
-- organisation there are no members and no invites; and a personal one is its own user's.
pub record IsOwned (db : Db) : Type 0 where
  pub owned :
      (o u : ℕ) (t : Tenant)
      → lookup o db.tenants ≡ some t
      → holds_owner (lookup (o, u) db.members) ≡ (t.owner_id == u)
  pub housed : (o u : ℕ) → lookup o db.tenants ≡ none → lookup (o, u) db.members ≡ none
  pub invited : All (λ (i : OrgInviteRow). is_some (lookup i.org_id db.tenants) ≡ true) db.invites
  pub own : (o : ℕ) (t : Tenant) → lookup o db.tenants ≡ some t → t.type ≡ personal → t.owner_id ≡ o

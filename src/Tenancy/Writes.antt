-- ===== src/Tenancy/Writes.antt =====
-- The writes of src/tenancy/org-member-repository.ts and src/tenancy/drizzle-org-repository.ts, by what
-- they need to keep every organisation with its owner.
use platform_core.Base.{
  ℕ, ◌≡◌, refl, ap, Bool, true, false, ◌&&◌, ◌==◌, ==_iff, Option, none, some, is_some,
  if◌then◌else◌, nat_eq, arith,
}
use platform_core.Base.Dict.{
  Dict, lookup, insert_new, update, remove, lookup-insert_new, lookup-update, lookup-remove,
}
use mathlib.Core.Option
use platform_core.Tenancy.Types.{
  Tenant, Role, GivenRole, as_admin, as_member, role_of, OrgMemberRow, Db, pair_beq, pair_eq,
}
use platform_core.Tenancy.Repository.{add_member, update_member_role, remove_member_row}
use platform_core.Tenancy.Owned.{is_owner_role, holds_owner, IsOwned}

-- The user who owns the organisation of a row, whichever of two equal numbers finds it.
pub same_owner :
    (ts : Dict ℕ Tenant) (o o' : ℕ) {t t' : Tenant}
    → lookup o ts ≡ some t
    → lookup o' ts ≡ some t'
    → (o == o') ≡ true
    → t.owner_id ≡ t'.owner_id
same_owner ts o o' p q e = let s = ap (λ (x : ℕ). lookup x ts) ((==_iff o o').0 e) in ground arith

pub role_of-not_owner : (r : GivenRole) → is_owner_role (role_of r) ≡ false
role_of-not_owner as_admin = refl
role_of-not_owner as_member = refl

abbrev pub Members : Type 0
Members = Dict (ℕ × ℕ) OrgMemberRow

pub holds_owner-update :
    (k j : ℕ × ℕ) (r : Role) (ms : Members)
    → holds_owner (lookup j (update k (λ (m : OrgMemberRow). record m { role = r }) ms)) ≡ (
        if pair_beq k j
        then is_some (lookup j ms) && is_owner_role r
        else holds_owner (lookup j ms))
holds_owner-update k j r ms =
    rw (lookup-update k j (λ (m : OrgMemberRow). record m { role = r }) ms)
      (found (pair_beq k j) (lookup j ms))
  where
    found :
        (b : Bool) (o : Option OrgMemberRow)
        → holds_owner (if b then Option.map (λ (m : OrgMemberRow). record m { role = r }) o else o)
          ≡ (if b then is_some o && is_owner_role r else holds_owner o)
    found true none = refl
    found true (some m) = refl
    found false o = refl

pub holds_owner-insert_new :
    (k j : ℕ × ℕ) (m : OrgMemberRow) (ms : Members)
    → lookup k ms ≡ none
    → holds_owner (lookup j (insert_new k m ms))
      ≡ (if pair_beq k j then is_owner_role m.role else holds_owner (lookup j ms))
holds_owner-insert_new k j m ms new = ground (arith, lookup-insert_new k j m ms)

holds_owner-remove :
    (k j : ℕ × ℕ) (ms : Members)
    → holds_owner (lookup j (remove k ms))
      ≡ (if pair_beq k j then false else holds_owner (lookup j ms))
holds_owner-remove k j ms = ground (arith, lookup-remove k j ms)

module _ (db : Db) (h : IsOwned db) where
  -- A member that is not the owner gets another role.
  pub update_member_role-IsOwned :
      (org_id target : ℕ) (t₀ : Tenant) (r : GivenRole)
      → lookup org_id db.tenants ≡ some t₀
      → (t₀.owner_id == target) ≡ false
      → IsOwned (update_member_role org_id target (role_of r) db)
  unfolding update_member_role
  update_member_role-IsOwned org_id target t₀ r found other = record {
    owned = λ o u t q. ground (
      arith,
      holds_owner-update (org_id, target) (o, u) (role_of r) db.members,
      role_of-not_owner r,
      h.owned o u t q,
      same_owner db.tenants org_id o found q,
      ==_iff target u,
    );
    housed = λ o u q. ground (
      arith,
      h.housed o u q,
      lookup-update (org_id, target) (o, u) (λ (m : OrgMemberRow). record m { role = role_of r })
          db.members,
    );
    invited = h.invited;
    own = h.own;
  }

  -- A member that is not the owner is removed.
  pub remove_member_row-IsOwned :
      (org_id target : ℕ) (t₀ : Tenant)
      → lookup org_id db.tenants ≡ some t₀
      → (t₀.owner_id == target) ≡ false
      → IsOwned (remove_member_row org_id target db)
  unfolding remove_member_row
  remove_member_row-IsOwned org_id target t₀ found other = record {
    owned = λ o u t q. ground (
      arith,
      holds_owner-remove (org_id, target) (o, u) db.members,
      h.owned o u t q,
      same_owner db.tenants org_id o found q,
      ==_iff target u,
    );
    housed =
        λ o u q. ground (arith, h.housed o u q, lookup-remove (org_id, target) (o, u) db.members);
    invited = h.invited;
    own = h.own;
  }

  -- A new member of an organisation gets a role that is not the owner's.
  pub add_member-IsOwned :
      (org_id user_id : ℕ) (t₀ : Tenant) (m : OrgMemberRow)
      → lookup org_id db.tenants ≡ some t₀
      → lookup (org_id, user_id) db.members ≡ none
      → is_owner_role m.role ≡ false
      → IsOwned (add_member org_id user_id m db)
  unfolding add_member
  add_member-IsOwned org_id user_id t₀ m found new given_role = record {
    owned = λ o u t q. ground (
      arith,
      holds_owner-insert_new (org_id, user_id) (o, u) m db.members new,
      h.owned o u t q,
      h.owned org_id user_id t₀ found,
      same_owner db.tenants org_id o found q,
      ==_iff user_id u,
    );
    housed = λ o u q. ground (
      arith,
      h.housed o u q,
      lookup-insert_new (org_id, user_id) (o, u) m db.members,
      ap (λ (x : ℕ). lookup x db.tenants) {x = org_id} {y = o},
      ==_iff org_id o,
    );
    invited = h.invited;
    own = h.own;
  }

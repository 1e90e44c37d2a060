-- ===== src/Tenancy/OrgChanges.antt =====
-- The writes that invite, hand over and delete (src/tenancy/org-service.ts), by what they need to keep every
-- organisation with its owner.
use platform_core.Base.{
  ℕ, ◌≡◌, ◌≢◌, ◌⊎◌, refl, sym, ◌∙◌, ap, true, false, ◌&&◌, ◌==◌, ==_iff, some, is_some,
  if◌then◌else◌, nat_eq, arith, inl, inr,
}
use platform_core.Base.Dict.{
  lookup, update, remove, lookup-update, lookup-remove, lookup-update-eq-some,
}
use platform_core.Tenancy.Types.{
  Tenant, personal, org, owner, admin, OrgMemberRow, OrgInviteRow, Db, pair_eq,
}
use platform_core.Tenancy.Repository.{
  update_owner, update_member_role, delete_all_members, delete_all_invites, create_invite,
  delete_invite, mark_invite_accepted,
}
use platform_core.Tenancy.Owned.{holds_owner, IsOwned}
use platform_core.Tenancy.Writes.{Members, same_owner, holds_owner-update}
use platform_core.Tenancy.Invites.{
  HasOrg-mono, HasOrg-filter, HasOrg-mark_all, HasOrg-delete, lookup-delete_all_members,
}

module _ (db : Db) (h : IsOwned db) where
  pub create_invite-IsOwned :
      (i : OrgInviteRow)
      → is_some (lookup i.org_id db.tenants) ≡ true
      → IsOwned (create_invite i db)
  unfolding create_invite
  create_invite-IsOwned i k = record {
    owned = h.owned;
    housed = h.housed;
    invited = (k, h.invited);
    own = h.own;
  }

  pub delete_invite-IsOwned : (id : ℕ) → IsOwned (delete_invite id db)
  unfolding delete_invite
  delete_invite-IsOwned id = record {
    owned = h.owned;
    housed = h.housed;
    invited = HasOrg-filter db.tenants _ db.invites h.invited;
    own = h.own;
  }

  pub mark_invite_accepted-IsOwned : (now id : ℕ) → IsOwned (mark_invite_accepted now id db)
  unfolding mark_invite_accepted
  mark_invite_accepted-IsOwned now id = record {
    owned = h.owned;
    housed = h.housed;
    invited = HasOrg-mark_all db.tenants now id db.invites h.invited;
    own = h.own;
  }

  -- What `deleteOrg` deletes.
  pub deleted-IsOwned :
      (org_id : ℕ)
      → IsOwned (record {
        tenants = remove org_id db.tenants;
        members = delete_all_members org_id db.members;
        invites = delete_all_invites org_id db.invites;
      })
  deleted-IsOwned org_id = record {
    owned = λ o u t q. ground (
      arith,
      lookup-remove org_id o db.tenants,
      lookup-delete_all_members org_id o u db.members,
      h.owned o u t,
    );
    housed = λ o u q. ground (
      arith,
      lookup-remove org_id o db.tenants,
      lookup-delete_all_members org_id o u db.members,
      h.housed o u,
    );
    invited = HasOrg-delete db.tenants org_id db.invites h.invited;
    own = λ o t q. h.own o t (ground (arith, lookup-remove org_id o db.tenants));
  }

  -- An ownership is handed over to another member.
  pub handed_over-IsOwned :
      (org_id actor target : ℕ) (t₀ : Tenant) (m : OrgMemberRow)
      → lookup org_id db.tenants ≡ some t₀
      → t₀.owner_id ≡ actor
      → t₀.type ≡ org
      → lookup (org_id, target) db.members ≡ some m
      → actor ≢ target
      → IsOwned (
          update_owner org_id target
            (update_member_role org_id actor admin (update_member_role org_id target owner db)))
  unfolding update_owner update_member_role
  handed_over-IsOwned org_id actor target t₀ m found owns team there differ = record {
    owned = λ o u t q. owned_by o u t (lookup-update-eq-some org_id o handed db.tenants q);
    housed = λ o u q. ground (
      arith,
      lookup-update org_id o handed db.tenants,
      h.housed o u,
      lookup-update (org_id, target) (o, u) (λ (x : OrgMemberRow). record x { role = owner })
          db.members,
      lookup-update (org_id, actor) (o, u) (λ (x : OrgMemberRow). record x { role = admin })
          promoted,
    );
    invited =
        HasOrg-mono db.tenants _ (λ o k. ground (arith, lookup-update org_id o handed db.tenants))
          db.invites h.invited;
    own = λ o t q k. own_by o t k (lookup-update-eq-some org_id o handed db.tenants q);
  }
    where
      handed : Tenant → Tenant
      handed t = record t { owner_id = target }

      promoted : Members
      promoted =
          update (org_id, target) (λ (x : OrgMemberRow). record x { role = owner }) db.members

      -- The roles in the organisation after the two updates.
      roles :
          (o u : ℕ)
          → holds_owner (
              lookup
                (o, u)
                (update (org_id, actor) (λ (x : OrgMemberRow). record x { role = admin }) promoted))
            ≡ (if (org_id == o) && (actor == u)
                then false
                else if (org_id == o) && (target == u)
                then is_some (lookup (o, u) db.members)
                else holds_owner (lookup (o, u) db.members))
      roles o u = ground (
        arith,
        holds_owner-update (org_id, actor) (o, u) admin promoted,
        holds_owner-update (org_id, target) (o, u) owner db.members,
      )

      in_org :
          (o u : ℕ)
          → (org_id == o) ≡ true
          → (target == u) ≡ true
          → is_some (lookup (o, u) db.members) ≡ true
      in_org o u e f = rw (← (==_iff org_id o).0 e, ← (==_iff target u).0 f, there) refl

      owned_by :
          (o u : ℕ) (t : Tenant)
          → ((t' : Tenant) × (lookup o db.tenants ≡ some t')
              × ((((org_id == o) ≡ false) × (t ≡ t')) ⊎ (((org_id == o) ≡ true) × (t ≡ handed t'))))
          → holds_owner (
              lookup
                (o, u)
                (update (org_id, actor) (λ (x : OrgMemberRow). record x { role = admin }) promoted))
            ≡ (t.owner_id == u)
      owned_by o u t (t', q, inl (e, same)) =
          ground (arith, roles o u, ap (λ (x : Tenant). x.owner_id) same, h.owned o u t' q)
      owned_by o u t (t', q, inr (e, same)) = ground (
        arith,
        roles o u,
        ap (λ (x : Tenant). x.owner_id) same,
        h.owned o u t' q,
        same_owner db.tenants org_id o found q e,
        in_org o u e,
      )

      own_by :
          (o : ℕ) (t : Tenant)
          → t.type ≡ personal
          → ((t' : Tenant) × (lookup o db.tenants ≡ some t')
              × ((((org_id == o) ≡ false) × (t ≡ t')) ⊎ (((org_id == o) ≡ true) × (t ≡ handed t'))))
          → t.owner_id ≡ o
      own_by o t k (t', q, inl (e, same)) =
          ap (λ (x : Tenant). x.owner_id) same
          ∙ h.own o t' q (sym (ap (λ (x : Tenant). x.type) same) ∙ k)
      own_by o t k (t', q, inr (e, same)) =
          let s = ap (λ (x : ℕ). lookup x db.tenants) ((==_iff org_id o).0 e) in
          absurd (ground (arith, ap (λ (x : Tenant). x.type) same))

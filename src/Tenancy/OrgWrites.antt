-- ===== src/Tenancy/OrgWrites.antt =====
-- The writes that make, change, hand over and delete an organisation (src/tenancy/org-service.ts), by what
-- they need to keep every organisation with its owner.
use platform_core.Base.{
  ℕ, ◌≡◌, ◌⊎◌, refl, sym, ◌∙◌, ap, true, ◌==◌, ==_iff, none, some, nat_eq, arith, inl, inr,
}
use platform_core.Base.Dict.{
  Dict, lookup, insert_new, update, remove, lookup-insert_new, lookup-update, lookup-remove,
  lookup-update-eq-some, lookup-insert_new-eq-some,
}
use platform_core.Tenancy.Types.{Tenant, personal, owner, OrgMemberRow, Db, pair_eq}
use platform_core.Tenancy.Repository.{OrgUpdate, write_update, add_member}
use platform_core.Tenancy.Owned.{is_owner_role, holds_owner, IsOwned}
use platform_core.Tenancy.Writes.{holds_owner-insert_new}
use platform_core.Tenancy.Invites.{HasOrg-mono}

-- The tables are read through lookups.
pub same_tenants-IsOwned :
    (db : Db) (ts : Dict ℕ Tenant)
    → IsOwned db
    → ((o : ℕ) → lookup o ts ≡ lookup o db.tenants)
    → IsOwned (record db { tenants = ts })
same_tenants-IsOwned db ts h same = record {
  owned = λ o u t q. h.owned o u t (sym (same o) ∙ q);
  housed = λ o u q. h.housed o u (sym (same o) ∙ q);
  invited = HasOrg-mono db.tenants ts (λ o k. rw (same o) k) db.invites h.invited;
  own = λ o t q. h.own o t (sym (same o) ∙ q);
}

-- A write that keeps the owner and the type of each organisation.
pub kept_by-IsOwned :
    (db : Db) (org_id : ℕ) (f : Tenant → Tenant)
    → IsOwned db
    → ((t : Tenant) → (f t).owner_id ≡ t.owner_id)
    → ((t : Tenant) → (f t).type ≡ t.type)
    → IsOwned (record db { tenants = update org_id f db.tenants })
kept_by-IsOwned db org_id f h same_owner_id same_type = record {
  owned = λ o v t q.
      let (t', p, d, e) = read o t q in h.owned o v t' p ∙ ap (λ (x : ℕ). x == v) (sym d);
  housed = λ o v q. h.housed o v (ground (arith, lookup-update org_id o f db.tenants));
  invited =
      HasOrg-mono db.tenants _ (λ o k. ground (arith, lookup-update org_id o f db.tenants))
        db.invites h.invited;
  own = λ o t q k. let (t', p, d, e) = read o t q in d ∙ h.own o t' p (sym e ∙ k);
}
  where
    read :
        (o : ℕ) (t : Tenant)
        → lookup o (update org_id f db.tenants) ≡ some t
        → (t' : Tenant) × (lookup o db.tenants ≡ some t')
          × (t.owner_id ≡ t'.owner_id)
          × (t.type ≡ t'.type)
    read o t q =
        let (t', p, d) = lookup-update-eq-some org_id o f db.tenants q in
        elim d [
          | inl (b, e) ↦ (t', p, ap (λ (x : Tenant). x.owner_id) e, ap (λ (x : Tenant). x.type) e)
          | inr (b, e) ↦ (
            t',
            p,
            ap (λ (x : Tenant). x.owner_id) e ∙ same_owner_id t',
            ap (λ (x : Tenant). x.type) e ∙ same_type t',
          )
        ]

module _ (db : Db) (h : IsOwned db) where
  pub write_update-IsOwned :
      (org_id : ℕ) (u : OrgUpdate)
      → IsOwned (record db { tenants = update org_id (write_update u) db.tenants })
  unfolding write_update
  write_update-IsOwned org_id u =
      kept_by-IsOwned db org_id (write_update u) h (λ t. refl) (λ t. refl)

  -- A new organisation with its first member.
  pub new_org-IsOwned :
      (id user_id : ℕ) (t₀ : Tenant) (m : OrgMemberRow)
      → lookup id db.tenants ≡ none
      → t₀.owner_id ≡ user_id
      → (t₀.type ≡ personal → user_id ≡ id)
      → m.role ≡ owner
      → IsOwned (add_member id user_id m (record db { tenants = insert_new id t₀ db.tenants }))
  unfolding add_member
  new_org-IsOwned id user_id t₀ m new owner_id own_id is_owner = record {
    owned = λ o u t q. owned_by o u t (lookup-insert_new-eq-some id o t₀ db.tenants new q);
    housed = λ o u q. ground (
      arith,
      lookup-insert_new id o t₀ db.tenants,
      lookup-insert_new (id, user_id) (o, u) m db.members,
      h.housed o u,
      ==_iff id o,
    );
    invited =
        HasOrg-mono db.tenants _ (λ o k. ground (arith, lookup-insert_new id o t₀ db.tenants))
          db.invites h.invited;
    own = λ o t q k. own_by o t k (lookup-insert_new-eq-some id o t₀ db.tenants new q);
  }
    where
      no_org : (o : ℕ) → (id == o) ≡ true → lookup o db.tenants ≡ none
      no_org o e = sym (ap (λ (x : ℕ). lookup x db.tenants) ((==_iff id o).0 e)) ∙ new

      owned_by :
          (o u : ℕ) (t : Tenant)
          → (((id == o) ≡ true) × (t ≡ t₀)) ⊎ (lookup o db.tenants ≡ some t)
          → holds_owner (lookup (o, u) (insert_new (id, user_id) m db.members)) ≡ (t.owner_id == u)
      owned_by o u t (inl (e, same)) = ground (
        arith,
        holds_owner-insert_new (id, user_id) (o, u) m db.members (h.housed id user_id new),
        ap (λ (x : Tenant). x.owner_id) same,
        owner_id,
        h.housed o u (no_org o e),
        ap is_owner_role is_owner,
      )
      owned_by o u t (inr q) = ground (
        arith,
        holds_owner-insert_new (id, user_id) (o, u) m db.members (h.housed id user_id new),
        h.owned o u t q,
        no_org o,
      )

      own_by :
          (o : ℕ) (t : Tenant)
          → t.type ≡ personal
          → (((id == o) ≡ true) × (t ≡ t₀)) ⊎ (lookup o db.tenants ≡ some t)
          → t.owner_id ≡ o
      own_by o t k (inl (e, same)) =
          ap (λ (x : Tenant). x.owner_id) same
          ∙ owner_id
          ∙ own_id (sym (ap (λ (x : Tenant). x.type) same) ∙ k)
          ∙ (==_iff id o).0 e
      own_by o t k (inr q) = h.own o t q k

  pub undone-IsOwned :
      (id : ℕ) (t₀ : Tenant)
      → lookup id db.tenants ≡ none
      → IsOwned (record db { tenants = remove id (insert_new id t₀ db.tenants) })
  undone-IsOwned id t₀ new = same_tenants-IsOwned db _ h (λ o. ground (
    arith,
    lookup-remove id o (insert_new id t₀ db.tenants),
    lookup-insert_new id o t₀ db.tenants,
    ==_iff id o,
    ap (λ (x : ℕ). lookup x db.tenants) {x = id} {y = o},
  ))

-- ===== src/Tenancy/Ownership.antt =====
-- Runs of the methods of OrgService (src/tenancy/org-service.ts).
use platform_core.Base.{
  ℕ, ◌≡◌, ◌≢◌, refl, sym, ◌∙◌, ap, Bool, true, false, not, ◌&&◌, ◌==◌, leb, ltb, find?, find?-All,
  Option, none, some, is_some, List, [], ◌∷◌, nat_eq, arith, if_ind, ⊤,
}
use platform_core.Base.Dict.{lookup, insert_new, insert_new-eq_of_lookup}
use mathlib.Core.Path.{subst}
use platform_core.Tenancy.Types.{
  Tenant, personal, org, Role, owner, GivenRole, role_of, OrgMemberRow, OrgInviteRow, Db, pair_eq,
  Result, ok,
}
use platform_core.Tenancy.Repository.{
  get_by_id, get_by_slug, insert_org, insert_unless, org_tenant, personal_tenant, final_slug,
  create_org_row, ensure_personal_tenant, OrgUpdate, find_member, add_member, mark_invite_accepted,
  has_token, find_invite_by_id, find_invite_by_token, count_admins_and_owners,
}
use platform_core.Tenancy.Service.{
  Action, is_admin_of, is_admin_row, member_row, get_or_create_personal_org, FirstMember, inserted,
  undone, orphaned, is_blank, first_member, slug_error, create_org, update_org, write_org, written,
  is_other, insert_first, delete_org, invite_member, revoke_invite, change_role, is_admin_role,
  remove_member, transfer_ownership, is_set, accept_invite,
}
use platform_core.Tenancy.Owned.{IsOwned}
use platform_core.Tenancy.Writes.{
  update_member_role-IsOwned, remove_member_row-IsOwned, add_member-IsOwned, role_of-not_owner,
}
use platform_core.Tenancy.OrgWrites.{write_update-IsOwned, new_org-IsOwned, undone-IsOwned}
use platform_core.Tenancy.OrgChanges.{
  create_invite-IsOwned, delete_invite-IsOwned, mark_invite_accepted-IsOwned, deleted-IsOwned,
  handed_over-IsOwned,
}
use platform_core.Tenancy.Guards.{with_org_ind, with_member_ind, with_invite_ind, unless_error_ind}

-- What an action leaves is owned.
abbrev pub Leaves : {A : Type 0} → Result A × Db → Type 0
Leaves x = IsOwned x.1

module _ (db : Db) (h : IsOwned db) where
  pub update_org-IsOwned : (o a : ℕ) (u : OrgUpdate) → IsOwned (update_org o a u db).1
  unfolding update_org get_by_id
  update_org-IsOwned o a u =
      if_ind Leaves (not (is_admin_of o a db)) _ _ (λ _. h)
        (λ _.
          unless_error_ind Leaves db (slug_error (is_other o) u.slug db) (write_org o u) (λ e. h)
            (with_org_ind Leaves db (lookup o db.tenants) (written o u) h
              (λ t q. write_update-IsOwned db h o u)))

  pub delete_org-IsOwned :
      (hook_throws : Bool) (o a : ℕ) → IsOwned (delete_org hook_throws o a db).1
  unfolding delete_org get_by_id
  delete_org-IsOwned hook_throws o a = with_org_ind Leaves db (lookup o db.tenants) _ h (λ t q.
      if_ind (λ (m : Action ⊤). Leaves (m db)) (not (t.owner_id == a)) _ _ (λ _. h)
        (λ _.
          if_ind (λ (m : Action ⊤). Leaves (m db)) hook_throws _ _ (λ _. h)
            (λ _. deleted-IsOwned db h o)))

  pub revoke_invite-IsOwned : (o a i : ℕ) → IsOwned (revoke_invite o a i db).1
  unfolding revoke_invite
  revoke_invite-IsOwned o a i =
      if_ind Leaves (not (is_admin_of o a db)) _ _ (λ _. h)
        (λ _. with_invite_ind Leaves db (find_invite_by_id i db) _ h (λ x q.
          if_ind (λ (m : Action ⊤). Leaves (m db)) (x.org_id == o) _ _
            (λ _. delete_invite-IsOwned db h i) (λ _. h)))

  pub change_role-IsOwned : (o a u : ℕ) (r : GivenRole) → IsOwned (change_role o a u r db).1
  unfolding change_role get_by_id
  change_role-IsOwned o a u r =
      if_ind Leaves (not (is_admin_of o a db)) _ _ (λ _. h)
        (λ _. with_org_ind Leaves db (lookup o db.tenants) _ h (λ t q.
          if_ind (λ (m : Action ⊤). Leaves (m db)) (t.owner_id == u) _ _ (λ _. h)
            (λ other.
              with_member_ind Leaves db (find_member o u db) _ h
                (λ m p. update_member_role-IsOwned db h o u t r q other))))

  pub remove_member-IsOwned : (o a u : ℕ) → IsOwned (remove_member o a u db).1
  unfolding remove_member get_by_id
  remove_member-IsOwned o a u =
      if_ind Leaves (not (is_admin_of o a db)) _ _ (λ _. h)
        (λ _. with_org_ind Leaves db (lookup o db.tenants) _ h (λ t q.
          if_ind (λ (m : Action ⊤). Leaves (m db)) (t.owner_id == u) _ _ (λ _. h)
            (λ other. with_member_ind Leaves db (find_member o u db) _ h (λ x p.
              if_ind (λ (m : Action ⊤). Leaves (m db))
                (is_admin_role x.role && leb (count_admins_and_owners o db) 1) _ _ (λ _. h)
                (λ _. remove_member_row-IsOwned db h o u t q other)))))

  -- An invite is made by a member, so that its organisation is there.
  pub invite_member-IsOwned :
      (id token now o a email : ℕ) (r : GivenRole)
      → IsOwned (invite_member id token now o a email r db).1
  unfolding invite_member is_admin_of find_member
  invite_member-IsOwned id token now o a email r =
      if_ind Leaves (not (is_admin_of o a db)) _ _ (λ _. h)
        (λ allowed. create_invite-IsOwned db h _ (there (lookup o db.tenants) refl allowed))
    where
      there :
          (x : Option Tenant)
          → lookup o db.tenants ≡ x
          → not (is_admin_row (lookup (o, a) db.members)) ≡ false
          → is_some (lookup o db.tenants) ≡ true
      there none q allowed = absurd (ground (arith, h.housed o a q))
      there (some t) q allowed = rw q refl

  pub get_or_create_personal_org-IsOwned :
      (member_id now user_id : ℕ) (name : List ℕ)
      → ((t : Tenant) → lookup user_id db.tenants ≡ some t → t.type ≡ personal)
      → IsOwned (get_or_create_personal_org member_id now user_id name db)
  unfolding get_or_create_personal_org ensure_personal_tenant add_member
  get_or_create_personal_org-IsOwned member_id now user_id name own_type =
      made (lookup user_id db.tenants) refl
    where
      same :
          {w : OrgMemberRow} {t : Tenant}
          → lookup (user_id, user_id) db.members ≡ some w
          → lookup user_id db.tenants ≡ some t
          → get_or_create_personal_org member_id now user_id name db ≡ db
      same p q = λ i. record db {
        tenants = insert_new-eq_of_lookup user_id (personal_tenant now user_id name) db.tenants q i;
        members =
            insert_new-eq_of_lookup (user_id, user_id) (member_row member_id now owner) db.members p
              i;
      }

      kept_member :
          (t : Tenant)
          → lookup user_id db.tenants ≡ some t
          → (x : Option OrgMemberRow) → lookup (user_id, user_id) db.members ≡ x
          → IsOwned (get_or_create_personal_org member_id now user_id name db)
      kept_member t q none p =
          absurd (ground (arith, h.owned user_id user_id t q, h.own user_id t q (own_type t q)))
      kept_member t q (some w) p = subst IsOwned (sym (same p q)) h

      made :
          (x : Option Tenant)
          → lookup user_id db.tenants ≡ x
          → IsOwned (get_or_create_personal_org member_id now user_id name db)
      made none q =
          new_org-IsOwned db h user_id user_id (personal_tenant now user_id name)
            (member_row member_id now owner) q refl (λ _. refl) refl
      made (some t) q = kept_member t q (lookup (user_id, user_id) db.members) refl

  pub transfer_ownership-IsOwned :
      (o a u : ℕ)
      → a ≢ u
      → ((t : Tenant) → lookup o db.tenants ≡ some t → t.type ≡ org)
      → IsOwned (transfer_ownership o a u db).1
  unfolding transfer_ownership get_by_id find_member
  transfer_ownership-IsOwned o a u differ team =
      with_org_ind Leaves db (lookup o db.tenants) _ h (λ t q.
        if_ind (λ (m : Action ⊤). Leaves (m db)) (not (t.owner_id == a)) _ _ (λ _. h)
          (λ owns.
            with_member_ind Leaves db (lookup (o, u) db.members) _ h
              (λ m p. handed_over-IsOwned db h o a u t m q (ground arith) (team t q) p differ)))

  pub create_org-IsOwned :
      (outcome : FirstMember) (id member_id now user_id : ℕ) (name : List ℕ)
      (slug : Option (List ℕ))
      → lookup id db.tenants ≡ none
      → outcome ≢ orphaned
      → IsOwned (create_org outcome id member_id now user_id name slug db).1
  unfolding create_org create_org_row
  create_org-IsOwned outcome id member_id now user_id name slug new made =
      if_ind Leaves (is_blank name) _ _ (λ _. h)
        (λ _.
          unless_error_ind Leaves db (slug_error (λ _. true) slug db)
            (insert_first outcome id member_id now user_id name slug) (λ e. h)
            (begun (final_slug name slug)))
    where
      first :
          (f : FirstMember) (t : Tenant)
          → f ≢ orphaned
          → t.id ≡ id
          → t.owner_id ≡ user_id
          → t.type ≡ org
          → IsOwned
              (first_member f member_id now user_id
                (ok t, record db { tenants = insert_new t.id t db.tenants })).1
      first inserted t n i w y =
          new_org-IsOwned db h t.id user_id t (member_row member_id now owner)
            (ap (λ (x : ℕ). lookup x db.tenants) i ∙ new) w (λ k. absurd (ground arith)) refl
      first undone t n i w y =
          undone-IsOwned db h t.id t (ap (λ (x : ℕ). lookup x db.tenants) i ∙ new)
      first orphaned t n i w y = absurd (n refl)

      slugged :
          (s : List ℕ) (x : Option Tenant)
          → IsOwned
              (first_member outcome member_id now user_id
                (insert_unless x (org_tenant id now user_id name s) db)).1
      slugged s none = first outcome (org_tenant id now user_id name s) made refl refl refl
      slugged s (some t) = h

      begun :
          (s : List ℕ)
          → IsOwned
              (first_member outcome member_id now user_id
                (insert_org (org_tenant id now user_id name) s db)).1
      begun [] = h
      begun (c ∷ cs) = slugged (c ∷ cs) (get_by_slug (c ∷ cs) db)

  pub accept_invite-IsOwned :
      (member_id now token user_id : ℕ) → IsOwned (accept_invite member_id now token user_id db).1
  unfolding accept_invite find_invite_by_token find_member
  accept_invite-IsOwned member_id now token user_id =
      with_invite_ind Leaves db (find? (has_token token) db.invites) _ h (λ i q.
        if_ind At (is_set i.accepted_at) _ _ (λ _. h)
          (λ _.
            if_ind At (is_set i.revoked_at) _ _ (λ _. h)
              (λ _.
                if_ind At (not (i.expires_at == 0) && ltb i.expires_at now) _ _ (λ _. h)
                  (λ _.
                    if_ind At (is_some (lookup (i.org_id, user_id) db.members)) _ _ (λ _. h)
                      (λ free.
                        joins i free (lookup i.org_id db.tenants) refl
                          (find?-All _ _ db.invites h.invited q))))))
    where
      At : Action (ℕ × Role) → Type 0
      At m = Leaves (m db)

      joins :
          (i : OrgInviteRow)
          → is_some (lookup (i.org_id, user_id) db.members) ≡ false
          → (x : Option Tenant) → lookup i.org_id db.tenants ≡ x
          → is_some (lookup i.org_id db.tenants) ≡ true
          → IsOwned (
              mark_invite_accepted now i.id
                (add_member i.org_id user_id (member_row member_id now (role_of i.role)) db))
      joins i free none p k = absurd (ground arith)
      joins i free (some t) p k =
          mark_invite_accepted-IsOwned _
            (add_member-IsOwned db h i.org_id user_id t (member_row member_id now (role_of i.role))
              p (ground arith) (role_of-not_owner i.role))
            now i.id

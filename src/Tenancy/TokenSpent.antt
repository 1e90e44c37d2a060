-- ===== src/Tenancy/TokenSpent.antt =====
-- A token whose invite was accepted, under the methods of OrgService (src/tenancy/org-service.ts).
use platform_core.Base.{
  ℕ, ◌<◌, ◌≡◌, ◌≢◌, Bool, true, not, ◌&&◌, ◌==◌, ltb, leb, Option, none, some, is_some, List, [],
  ◌∷◌, All, filter, nat_eq, ==_iff, arith, if_ind, ⊤,
}
use platform_core.Base.Dict.{lookup}
use platform_core.Tenancy.Types.{Tenant, GivenRole, Role, OrgInviteRow, Db, Result, pair_eq}
use platform_core.Tenancy.Repository.{
  get_by_id, get_by_slug, insert_org, insert_unless, org_tenant, final_slug, create_org_row,
  ensure_personal_tenant, OrgUpdate, find_member, add_member, update_owner, update_member_role,
  remove_member_row, count_admins_and_owners, delete_all_invites, create_invite, delete_invite,
  has_token, find_invite_by_id, find_invite_by_token, mark_invite_accepted, mark_all,
}
use platform_core.Tenancy.Service.{
  Action, is_admin_of, get_or_create_personal_org, FirstMember, inserted, undone, orphaned,
  is_blank, first_member, slug_error, create_org, update_org, write_org, written, is_other,
  insert_first, delete_org, invite_member, revoke_invite, change_role, is_admin_role, remove_member,
  transfer_ownership, is_set, accept_invite,
}
use platform_core.Tenancy.Guards.{with_org_ind, with_member_ind, with_invite_ind, unless_error_ind}

-- An invite with this token was accepted.
abbrev pub IsMarked : ℕ → OrgInviteRow → Type 0
IsMarked token i = has_token token i ≡ true → is_set i.accepted_at ≡ true

abbrev pub IsSpent : ℕ → List OrgInviteRow → Type 0
IsSpent token = All (IsMarked token)

pub IsSpent-filter :
    (token : ℕ) (p : OrgInviteRow → Bool) (is : List OrgInviteRow)
    → IsSpent token is
    → IsSpent token (filter p is)
IsSpent-filter token p [] h = tt
IsSpent-filter token p (i ∷ is) h =
    if_ind (IsSpent token) (p i) (i ∷ filter p is) (filter p is)
      (λ _. (h.0, IsSpent-filter token p is h.1)) (λ _. IsSpent-filter token p is h.1)

pub IsSpent-mark_all :
    (token now id : ℕ) (is : List OrgInviteRow)
    → 0 < now
    → IsSpent token is
    → IsSpent token (mark_all now id is)
IsSpent-mark_all token now id [] p h = tt
IsSpent-mark_all token now id (i ∷ is) p h = (
  if_ind (IsMarked token) (i.id == id) (record i { accepted_at = some now }) i (λ _ _. ground arith)
      (λ _. h.0),
  IsSpent-mark_all token now id is p h.1,
)

module _ (token : ℕ) where
  abbrev Leaves : {A : Type 0} → Result A × Db → Type 0
  Leaves x = IsSpent token x.1.invites

  module _ (db : Db) (h : IsSpent token db.invites) where
    pub get_or_create_personal_org-IsSpent :
        (member_id now user_id : ℕ) (name : List ℕ)
        → IsSpent token (get_or_create_personal_org member_id now user_id name db).invites
    unfolding get_or_create_personal_org ensure_personal_tenant add_member
    get_or_create_personal_org-IsSpent member_id now user_id name = h

    pub create_org-IsSpent :
        (outcome : FirstMember) (id member_id now user_id : ℕ) (name : List ℕ)
        (slug : Option (List ℕ))
        → Leaves (create_org outcome id member_id now user_id name slug db)
    unfolding create_org create_org_row add_member
    create_org-IsSpent outcome id member_id now user_id name slug =
        if_ind Leaves (is_blank name) _ _ (λ _. h)
          (λ _.
            unless_error_ind Leaves db (slug_error (λ _. true) slug db)
              (insert_first outcome id member_id now user_id name slug) (λ e. h)
              (begun (final_slug name slug)))
      where
        slugged :
            (f : FirstMember) (s : List ℕ) (x : Option Tenant)
            → Leaves (
                first_member f member_id now user_id
                  (insert_unless x (org_tenant id now user_id name s) db))
        slugged inserted s none = h
        slugged undone s none = h
        slugged orphaned s none = h
        slugged f s (some t) = h

        begun :
            (s : List ℕ)
            → Leaves (
                first_member outcome member_id now user_id
                  (insert_org (org_tenant id now user_id name) s db))
        begun [] = h
        begun (c ∷ cs) = slugged outcome (c ∷ cs) (get_by_slug (c ∷ cs) db)

    pub update_org-IsSpent : (o a : ℕ) (u : OrgUpdate) → Leaves (update_org o a u db)
    unfolding update_org get_by_id
    update_org-IsSpent o a u =
        if_ind Leaves (not (is_admin_of o a db)) _ _ (λ _. h)
          (λ _.
            unless_error_ind Leaves db (slug_error (is_other o) u.slug db) (write_org o u) (λ e. h)
              (with_org_ind Leaves db (lookup o db.tenants) (written o u) h (λ t q. h)))

    pub delete_org-IsSpent : (hook_throws : Bool) (o a : ℕ) → Leaves (delete_org hook_throws o a db)
    unfolding delete_org delete_all_invites
    delete_org-IsSpent hook_throws o a = with_org_ind Leaves db (get_by_id o db) _ h (λ t q.
        if_ind (λ (m : Action ⊤). Leaves (m db)) (not (t.owner_id == a)) _ _ (λ _. h)
          (λ _.
            if_ind (λ (m : Action ⊤). Leaves (m db)) hook_throws _ _ (λ _. h)
              (λ _. IsSpent-filter token _ db.invites h)))

    pub invite_member-IsSpent :
        (id other now o a email : ℕ) (r : GivenRole)
        → other ≢ token
        → Leaves (invite_member id other now o a email r db)
    unfolding invite_member create_invite
    invite_member-IsSpent id other now o a email r n =
        if_ind Leaves (not (is_admin_of o a db)) _ _ (λ _. h)
          (λ _. (λ q. absurd (n ((==_iff other token).0 q)), h))

    pub revoke_invite-IsSpent : (o a i : ℕ) → Leaves (revoke_invite o a i db)
    unfolding revoke_invite delete_invite
    revoke_invite-IsSpent o a i =
        if_ind Leaves (not (is_admin_of o a db)) _ _ (λ _. h)
          (λ _. with_invite_ind Leaves db (find_invite_by_id i db) _ h (λ x q.
            if_ind (λ (m : Action ⊤). Leaves (m db)) (x.org_id == o) _ _
              (λ _. IsSpent-filter token _ db.invites h) (λ _. h)))

    pub change_role-IsSpent : (o a u : ℕ) (r : GivenRole) → Leaves (change_role o a u r db)
    unfolding change_role update_member_role
    change_role-IsSpent o a u r =
        if_ind Leaves (not (is_admin_of o a db)) _ _ (λ _. h)
          (λ _. with_org_ind Leaves db (get_by_id o db) _ h (λ t q.
            if_ind (λ (m : Action ⊤). Leaves (m db)) (t.owner_id == u) _ _ (λ _. h)
              (λ _. with_member_ind Leaves db (find_member o u db) _ h (λ m p. h))))

    pub remove_member-IsSpent : (o a u : ℕ) → Leaves (remove_member o a u db)
    unfolding remove_member remove_member_row
    remove_member-IsSpent o a u =
        if_ind Leaves (not (is_admin_of o a db)) _ _ (λ _. h)
          (λ _. with_org_ind Leaves db (get_by_id o db) _ h (λ t q.
            if_ind (λ (m : Action ⊤). Leaves (m db)) (t.owner_id == u) _ _ (λ _. h)
              (λ _. with_member_ind Leaves db (find_member o u db) _ h (λ x p.
                if_ind (λ (m : Action ⊤). Leaves (m db))
                  (is_admin_role x.role && leb (count_admins_and_owners o db) 1) _ _ (λ _. h)
                  (λ _. h)))))

    pub transfer_ownership-IsSpent : (o a u : ℕ) → Leaves (transfer_ownership o a u db)
    unfolding transfer_ownership update_owner update_member_role
    transfer_ownership-IsSpent o a u = with_org_ind Leaves db (get_by_id o db) _ h (λ t q.
        if_ind (λ (m : Action ⊤). Leaves (m db)) (not (t.owner_id == a)) _ _ (λ _. h)
          (λ _. with_member_ind Leaves db (find_member o u db) _ h (λ m p. h)))

    pub accept_invite-IsSpent :
        (member_id now other user_id : ℕ)
        → 0 < now
        → Leaves (accept_invite member_id now other user_id db)
    unfolding accept_invite mark_invite_accepted add_member
    accept_invite-IsSpent member_id now other user_id p =
        with_invite_ind Leaves db (find_invite_by_token other db) _ h (λ i q.
          if_ind At (is_set i.accepted_at) _ _ (λ _. h)
            (λ _.
              if_ind At (is_set i.revoked_at) _ _ (λ _. h)
                (λ _.
                  if_ind At (not (i.expires_at == 0) && ltb i.expires_at now) _ _ (λ _. h)
                    (λ _.
                      if_ind At (is_some (find_member i.org_id user_id db)) _ _ (λ _. h)
                        (λ _. IsSpent-mark_all token now i.id db.invites p h)))))
      where
        At : Action (ℕ × Role) → Type 0
        At m = Leaves (m db)

-- ===== src/Tenancy/InviteOnce.antt =====
-- What an invite admits, whatever calls follow (src/tenancy/org-service.ts).
use platform_core.Base.{
  ℕ, suc, ◌<◌, ◌≤◌, ◌≡◌, ◌≢◌, ◌⊎◌, inl, inr, refl, Bool, true, false, not, ◌&&◌, ◌==◌, ==_refl, ltb,
  length, Option, none, some, is_some, List, [], ◌∷◌, filter, find?, find?-All, nat_eq, arith,
  if_ind, Bool-cases,
}
use mathlib.Core.Path.{subst}
use platform_core.Tenancy.Types.{
  Role, GivenRole, OrgInviteRow, Db, pair_eq, Result, ok, err, OrgError,
}
use platform_core.Tenancy.Repository.{
  OrgUpdate, find_member, add_member, has_token, find_invite_by_token, mark_invite_accepted,
  mark_all, mark_one,
}
use platform_core.Tenancy.Service.{
  Action, get_or_create_personal_org, FirstMember, create_org, update_org, delete_org,
  invite_member, revoke_invite, change_role, remove_member, transfer_ownership, is_set,
  accept_invite,
}
use platform_core.Tenancy.Guards.{with_invite_ind}
use platform_core.Tenancy.TokenSpent.{
  IsMarked, IsSpent, get_or_create_personal_org-IsSpent, create_org-IsSpent, update_org-IsSpent,
  delete_org-IsSpent, invite_member-IsSpent, revoke_invite-IsSpent, change_role-IsSpent,
  remove_member-IsSpent, transfer_ownership-IsSpent, accept_invite-IsSpent,
}

-- The tables after any later calls of the service, answered or refused. A new invite has a token of its
-- own, which is random, and no time is zero.
pub data Later (token : ℕ) (start : Db) : Db → Type 0 where
  at_once : Later token start start
  personals :
      {db : Db} (member_id now user_id : ℕ) (name : List ℕ)
      → Later token start db
      → Later token start (get_or_create_personal_org member_id now user_id name db)
  creates :
      {db : Db} (outcome : FirstMember) (id member_id now user_id : ℕ) (name : List ℕ)
      (slug : Option (List ℕ))
      → Later token start db
      → Later token start (create_org outcome id member_id now user_id name slug db).1
  updates :
      {db : Db} (o a : ℕ) (u : OrgUpdate)
      → Later token start db
      → Later token start (update_org o a u db).1
  deletes :
      {db : Db} (hook_throws : Bool) (o a : ℕ)
      → Later token start db
      → Later token start (delete_org hook_throws o a db).1
  invites :
      {db : Db} (id other now o a email : ℕ) (r : GivenRole)
      → Later token start db
      → other ≢ token
      → Later token start (invite_member id other now o a email r db).1
  revokes :
      {db : Db} (o a i : ℕ) → Later token start db → Later token start (revoke_invite o a i db).1
  changes :
      {db : Db} (o a u : ℕ) (r : GivenRole)
      → Later token start db
      → Later token start (change_role o a u r db).1
  removes :
      {db : Db} (o a u : ℕ) → Later token start db → Later token start (remove_member o a u db).1
  transfers :
      {db : Db} (o a u : ℕ)
      → Later token start db
      → Later token start (transfer_ownership o a u db).1
  accepts :
      {db : Db} (member_id now other user_id : ℕ)
      → Later token start db
      → 0 < now
      → Later token start (accept_invite member_id now other user_id db).1

Later-IsSpent :
    (token : ℕ) {start db : Db}
    → IsSpent token start.invites
    → Later token start db
    → IsSpent token db.invites
Later-IsSpent token h at_once = h
Later-IsSpent token h (personals {db} m now u name r) =
    get_or_create_personal_org-IsSpent token db (Later-IsSpent token h r) m now u name
Later-IsSpent token h (creates {db} f id m now u name slug r) =
    create_org-IsSpent token db (Later-IsSpent token h r) f id m now u name slug
Later-IsSpent token h (updates {db} o a u r) =
    update_org-IsSpent token db (Later-IsSpent token h r) o a u
Later-IsSpent token h (deletes {db} b o a r) =
    delete_org-IsSpent token db (Later-IsSpent token h r) b o a
Later-IsSpent token h (invites {db} id other now o a email g r n) =
    invite_member-IsSpent token db (Later-IsSpent token h r) id other now o a email g n
Later-IsSpent token h (revokes {db} o a i r) =
    revoke_invite-IsSpent token db (Later-IsSpent token h r) o a i
Later-IsSpent token h (changes {db} o a u g r) =
    change_role-IsSpent token db (Later-IsSpent token h r) o a u g
Later-IsSpent token h (removes {db} o a u r) =
    remove_member-IsSpent token db (Later-IsSpent token h r) o a u
Later-IsSpent token h (transfers {db} o a u r) =
    transfer_ownership-IsSpent token db (Later-IsSpent token h r) o a u
Later-IsSpent token h (accepts {db} m now other u r p) =
    accept_invite-IsSpent token db (Later-IsSpent token h r) m now other u p

has_token-found :
    (token : ℕ) (is : List OrgInviteRow) (i : OrgInviteRow)
    → find? (has_token token) is ≡ some i
    → has_token token i ≡ true
has_token-found token [] i q = cc
has_token-found token (x ∷ is) i q = elim (Bool-cases (has_token token x)) [
  | inl hit ↦ ground arith
  | inr miss ↦ has_token-found token is i (rw miss at q)
]

unmarked :
    (token now id : ℕ) (x : OrgInviteRow)
    → has_token token x ≡ false
    → IsMarked token (mark_one now id x)
unmarked token now id x miss =
    if_ind (IsMarked token) (x.id == id) (record x { accepted_at = some now }) x
      (λ _ t. absurd (ground arith)) (λ _ t. absurd (ground arith))

none_other :
    (token now id : ℕ) (is : List OrgInviteRow)
    → length (filter (has_token token) is) ≤ 0
    → IsSpent token (mark_all now id is)
none_other token now id [] h = tt
none_other token now id (x ∷ is) h = elim (Bool-cases (has_token token x)) [
  | inl hit ↦ absurd (none_left (length (filter (has_token token) is)) (rw hit at h))
  | inr miss ↦ (unmarked token now id x miss, none_other token now id is (rw miss at h))
]
  where
    none_left : (n : ℕ) → suc n ≤ 0 → ⊥
    none_left n k = omega arith

-- The one invite with the token is marked.
mark_all-IsSpent :
    (token now : ℕ) (is : List OrgInviteRow) (i : OrgInviteRow)
    → 0 < now
    → find? (has_token token) is ≡ some i
    → length (filter (has_token token) is) ≤ 1
    → IsSpent token (mark_all now i.id is)
mark_all-IsSpent token now [] i p q h = tt
mark_all-IsSpent token now (x ∷ is) i p q h = elim (Bool-cases (has_token token x)) [
  | inl hit ↦
      let same : (x.id ≡ i.id) = found (rw hit at q) in
      (
        λ _. rw (same, ==_refl i.id) (ground arith),
        none_other token now i.id is
            (one_left (length (filter (has_token token) is)) (rw hit at h)),
      )
  | inr miss ↦ (
    unmarked token now i.id x miss,
    mark_all-IsSpent token now is i p (rw miss at q) (rw miss at h),
  )
]
  where
    found : some x ≡ some i → x.id ≡ i.id
    found e = cc

    one_left : (n : ℕ) → suc n ≤ 1 → n ≤ 0
    one_left n k = omega arith

-- Once an invite was accepted, at a time that is not zero, and no other invite had its token, an accept
-- with the token is refused, to any user and at any time, and nothing changes, whatever calls of the
-- service have followed in which new invites have other tokens and invites are accepted at times that
-- are not zero: the invite is found as accepted, or was deleted meanwhile.
pub accept_invite-once :
    (member_id now token user_id : ℕ) (start : Db) {r : ℕ × Role} {db db' : Db}
    → length (filter (has_token token) start.invites) ≤ 1
    → accept_invite member_id now token user_id start ≡ (ok r, db)
    → 0 < now
    → Later token db db'
    → (member_id' now' user_id' : ℕ)
    → (accept_invite member_id' now' token user_id' db' ≡ (err OrgError.invite_accepted, db'))
      ⊎ (accept_invite member_id' now' token user_id' db' ≡ (err OrgError.invite_not_found, db'))
unfolding accept_invite find_invite_by_token add_member mark_invite_accepted
accept_invite-once member_id now token user_id start {r} {db} {db'} single h p later m' now' u' =
    refused (find? (has_token token) db'.invites) refl
  where
    At : OrgInviteRow → Action (ℕ × Role) → Type 0
    At i m = m start ≡ (ok r, db) → IsSpent token db.invites

    spent : IsSpent token db.invites
    spent =
        with_invite_ind (λ x. x ≡ (ok r, db) → IsSpent token db.invites) start
          (find? (has_token token) start.invites) _ (λ e. cc)
          (λ i q.
            if_ind (At i) (is_set i.accepted_at) _ _ (λ _ e. cc)
              (λ _.
                if_ind (At i) (is_set i.revoked_at) _ _ (λ _ e. cc)
                  (λ _.
                    if_ind (At i) (not (i.expires_at == 0) && ltb i.expires_at now) _ _ (λ _ e. cc)
                      (λ _.
                        if_ind (At i) (is_some (find_member i.org_id user_id start)) _ _ (λ _ e. cc)
                          (λ _ e.
                            subst (λ (x : Result (ℕ × Role) × Db). IsSpent token x.1.invites) e
                              (mark_all-IsSpent token now start.invites i p q single))))))
          h

    refused :
        (x : Option OrgInviteRow)
        → find? (has_token token) db'.invites ≡ x
        → (accept_invite m' now' token u' db' ≡ (err OrgError.invite_accepted, db'))
          ⊎ (accept_invite m' now' token u' db' ≡ (err OrgError.invite_not_found, db'))
    refused none q = inr (rw q refl)
    refused (some i) q =
        let marked =
          find?-All (IsMarked token) (has_token token) db'.invites (Later-IsSpent token spent later)
            q (has_token-found token db'.invites i q) in
        inl (rw (q, marked) refl)

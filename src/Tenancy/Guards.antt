-- ===== src/Tenancy/Guards.antt =====
-- Guards of the methods of OrgService (src/tenancy/org-service.ts), by induction on what they look up.
use platform_core.Base.{◌≡◌, refl, Option, none, some, nat_eq}
use platform_core.Tenancy.Types.{
  Tenant, OrgMemberRow, OrgInviteRow, Db, pair_eq, Result, err, OrgError,
}
use platform_core.Tenancy.Service.{Action, unless_error, with_org, with_member, with_invite}

module _ {A : Type 0} (Q : Result A × Db → Type 0) (db : Db) where
  pub with_org_ind :
      (o : Option Tenant) (k : Tenant → Action A)
      → Q (err OrgError.org_not_found, db)
      → ((t : Tenant) → o ≡ some t → Q (k t db))
      → Q (with_org o k db)
  with_org_ind none k e f = e
  with_org_ind (some t) k e f = f t refl

  pub with_member_ind :
      (o : Option OrgMemberRow) (k : OrgMemberRow → Action A)
      → Q (err OrgError.member_not_found, db)
      → ((m : OrgMemberRow) → o ≡ some m → Q (k m db))
      → Q (with_member o k db)
  with_member_ind none k e f = e
  with_member_ind (some m) k e f = f m refl

  pub with_invite_ind :
      (o : Option OrgInviteRow) (k : OrgInviteRow → Action A)
      → Q (err OrgError.invite_not_found, db)
      → ((i : OrgInviteRow) → o ≡ some i → Q (k i db))
      → Q (with_invite o k db)
  with_invite_ind none k e f = e
  with_invite_ind (some i) k e f = f i refl

  pub unless_error_ind :
      (o : Option OrgError) (m : Action A)
      → ((e : OrgError) → Q (err e, db))
      → Q (m db)
      → Q (unless_error o m db)
  unless_error_ind none m e h = h
  unless_error_ind (some x) m e h = e x

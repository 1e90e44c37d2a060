-- ===== src/Tenancy/Invites.antt =====
-- Invites and members under the writes of an organisation (src/tenancy/drizzle-org-repository.ts and
-- src/tenancy/org-member-repository.ts).
use platform_core.Base.{
  ℕ, ◌≡◌, Bool, true, not, ◌==◌, ==_iff, none, some, is_some, List, [], ◌∷◌, All, filter,
  if◌then◌else◌, nat_eq, arith, if_ind,
}
use platform_core.Base.Dict.{Dict, lookup, remove, lookup-remove}
use platform_core.Tenancy.Types.{Tenant, OrgInviteRow, pair_eq}
use platform_core.Tenancy.Repository.{delete_all_members, delete_all_invites, mark_all}
use platform_core.Tenancy.Writes.{Members}

abbrev HasOrg : Dict ℕ Tenant → OrgInviteRow → Type 0
HasOrg ts i = is_some (lookup i.org_id ts) ≡ true

-- Invites stay with their organisations while none goes away.
pub HasOrg-mono :
    (ts ts' : Dict ℕ Tenant)
    → ((o : ℕ) → is_some (lookup o ts) ≡ true → is_some (lookup o ts') ≡ true)
    → (is : List OrgInviteRow) → All (HasOrg ts) is
    → All (HasOrg ts') is
HasOrg-mono ts ts' f [] h = tt
HasOrg-mono ts ts' f (i ∷ is) h = (f i.org_id h.0, HasOrg-mono ts ts' f is h.1)

pub HasOrg-filter :
    (ts : Dict ℕ Tenant) (p : OrgInviteRow → Bool) (is : List OrgInviteRow)
    → All (HasOrg ts) is
    → All (HasOrg ts) (filter p is)
HasOrg-filter ts p [] h = tt
HasOrg-filter ts p (i ∷ is) h =
    if_ind (All (HasOrg ts)) (p i) (i ∷ filter p is) (filter p is)
      (λ _. (h.0, HasOrg-filter ts p is h.1)) (λ _. HasOrg-filter ts p is h.1)

pub HasOrg-mark_all :
    (ts : Dict ℕ Tenant) (now id : ℕ) (is : List OrgInviteRow)
    → All (HasOrg ts) is
    → All (HasOrg ts) (mark_all now id is)
HasOrg-mark_all ts now id [] h = tt
HasOrg-mark_all ts now id (i ∷ is) h = (
  if_ind (HasOrg ts) (i.id == id) (record i { accepted_at = some now }) i (λ _. h.0) (λ _. h.0),
  HasOrg-mark_all ts now id is h.1,
)

pub HasOrg-delete :
    (ts : Dict ℕ Tenant) (org_id : ℕ) (is : List OrgInviteRow)
    → All (HasOrg ts) is
    → All (HasOrg (remove org_id ts)) (delete_all_invites org_id is)
unfolding delete_all_invites
HasOrg-delete ts org_id [] h = tt
HasOrg-delete ts org_id (i ∷ is) h =
    if_ind (All (HasOrg (remove org_id ts))) (not (i.org_id == org_id))
      (i ∷ delete_all_invites org_id is) (delete_all_invites org_id is)
      (λ other. (
        ground (
          arith,
          lookup-remove org_id i.org_id ts,
          h.0,
          ==_iff i.org_id org_id,
          ==_iff org_id i.org_id,
        ),
        HasOrg-delete ts org_id is h.1,
      ))
      (λ _. HasOrg-delete ts org_id is h.1)

pub lookup-delete_all_members :
    (org_id o u : ℕ) (ms : Members)
    → lookup (o, u) (delete_all_members org_id ms)
      ≡ (if org_id == o then none else lookup (o, u) ms)
unfolding lookup delete_all_members
lookup-delete_all_members org_id o u [] = ground arith
lookup-delete_all_members org_id o u (((p, v), m) ∷ ms) =
    ground
      (arith, lookup-delete_all_members org_id o u ms, ==_iff p org_id, ==_iff org_id o, ==_iff o p)

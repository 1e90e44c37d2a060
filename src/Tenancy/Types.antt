-- ===== src/Tenancy/Types.antt =====
-- Rows and errors of src/tenancy/drizzle-org-repository.ts and src/tenancy/org-member-repository.ts. Ids,
-- e-mail addresses, tokens and names of persons are numbers; names and slugs of organisations are texts.
use platform_core.Base.{ℕ, ◌≡◌, ◌↔◌, Bool, true, ◌&&◌, ◌==◌, Option, List, Eq, arith}
use platform_core.Base.Dict.{Dict}

pub data TenantType : Type 0 where
  personal : TenantType
  org : TenantType

pub record Tenant : Type 0 where
  pub id : ℕ
  pub name : List ℕ
  pub slug : Option (List ℕ)
  pub type : TenantType
  pub owner_id : ℕ
  pub billing_email : Option ℕ
  pub created_at : ℕ

pub data Role : Type 0 where
  owner : Role
  admin : Role
  member : Role

-- The roles that an invite or a change of role can give.
pub data GivenRole : Type 0 where
  as_admin : GivenRole
  as_member : GivenRole

abbrev pub role_of : GivenRole → Role
role_of as_admin = admin
role_of as_member = member

-- A row of organization_members, whose organisation and user are its key in `Db`.
pub record OrgMemberRow : Type 0 where
  pub id : ℕ
  pub role : Role
  pub joined_at : ℕ

pub record OrgInviteRow : Type 0 where
  pub id : ℕ
  pub org_id : ℕ
  pub email : ℕ
  pub role : GivenRole
  pub invited_by : ℕ
  pub token : ℕ
  pub expires_at : ℕ
  pub created_at : ℕ
  pub accepted_at : Option ℕ
  pub revoked_at : Option ℕ

abbrev pub pair_beq : ℕ × ℕ → ℕ × ℕ → Bool
pair_beq (a, b) (c, d) = (a == c) && (b == d)

pub pair_beq_iff : (p q : ℕ × ℕ) → (pair_beq p q ≡ true) ↔ (p ≡ q)
pair_beq_iff (a, b) (c, d) = ground arith

instance abbrev pub pair_eq : Eq (ℕ × ℕ)
pair_eq = record { beq = pair_beq; beq_iff = pair_beq_iff }

-- The tables tenants, organization_members (unique by organisation and user) and organization_invites.
pub record Db : Type 0 where
  pub tenants : Dict ℕ Tenant
  pub members : Dict (ℕ × ℕ) OrgMemberRow
  pub invites : List OrgInviteRow

-- The errors by their code and message.
pub data OrgError : Type 0 where
  blank_name : OrgError
  bad_slug : OrgError
  empty_slug : OrgError
  slug_taken : OrgError
  org_not_found : OrgError
  member_not_found : OrgError
  invite_not_found : OrgError
  not_admin_or_owner : OrgError
  not_owner : OrgError
  owner_role_change : OrgError
  owner_removal : OrgError
  last_admin : OrgError
  invite_accepted : OrgError
  invite_revoked : OrgError
  invite_expired : OrgError
  already_member : OrgError
  database_error : OrgError

pub data Result (A : Type 0) : Type 0 where
  ok : A → Result A
  err : OrgError → Result A

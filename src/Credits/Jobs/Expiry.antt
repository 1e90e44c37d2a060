-- ===== src/Credits/Jobs/Expiry.antt =====
-- The sweep of expired grants (src/credits/credit-expiry-cron.ts) and the query that finds them,
-- `expiredCredits` (src/credits/ledger.ts). The random ids of the entries that a sweep makes are
-- `first_id`, `first_id + 1` and so on, in the order of the grants.
use platform_core.Base.{
  ℕ, suc, Bool, true, false, ◌&&◌, Option, none, some, List, [], ◌∷◌, ◌++◌, ◌==◌, leb, includes,
  if◌then◌else◌, nat_eq,
}
use platform_core.Base.Int.{ℤ, pos, eqb_ℤ}
use platform_core.Base.Dict.{lookup}
use platform_core.Credits.Types.{
  Side, AccountType, code_Eq, DebitType, EntryType, Ref, EntryRow, LineRow, Account, JournalEntry,
  Db, Error, Result, ok, err,
}
use platform_core.Credits.Credit.{from_raw}
use platform_core.Credits.Ledger.{Action, DebitOpts, debit_capped, has_reference_id, side_eq}

-- `EXPIRABLE_CREDIT_TYPES`.
unfoldable pub is_expirable : EntryType → Bool
is_expirable EntryType.signup_grant = true
is_expirable EntryType.admin_grant = true
is_expirable EntryType.purchase = true
is_expirable EntryType.bounty = true
is_expirable EntryType.referral = true
is_expirable EntryType.promo = true
is_expirable EntryType.community_dividend = true
is_expirable EntryType.affiliate_bonus = true
is_expirable EntryType.affiliate_match = true
is_expirable EntryType.correction = true
is_expirable _ = false

abbrev pub is_liability : Option Account → Bool
is_liability none = false
is_liability (some a) = elim a.account_type [ AccountType.liability ↦ true | _ ↦ false ]

-- The first line of an entry on the credit side of a liability account.
unfoldable pub granted : ℕ → List LineRow → Db → Option ℤ
granted entry_id [] db = none
granted entry_id (l ∷ ls) db =
    let rest = granted entry_id ls db in
    if (l.journal_entry_id == entry_id)
      && is_liability (lookup l.account db.accounts)
      && side_eq l.side Side.credit
    then some l.amount
    else rest

abbrev pub has_expired : ℕ → EntryRow → Bool
has_expired now row =
    is_expirable row.entry_type
    && elim row.metadata.expires_at [ none ↦ false | some at ↦ leb at now ]

pub record Grant : Type 0 where
  pub entry_id : ℕ
  pub tenant_id : ℕ
  pub amount : ℤ

-- One round of the query's loop: no amount, or an amount of zero, and a grant whose expiry is in the
-- journal are passed over.
abbrev pub add_grant : EntryRow → Db → Result (List Grant) → Result (List Grant)
add_grant row db rest = elim (granted row.id db.journal_lines db) [
  | none ↦ rest
  | some amount ↦
      if eqb_ℤ amount (pos 0)
      then rest
      else if has_reference_id (Ref.expiry row.id) db
      then rest
      else elim (from_raw amount) [
        | err e ↦ err e
        | ok a ↦ elim rest [
          | err e ↦ err e
          | ok gs ↦ ok (record { entry_id = row.id; tenant_id = row.tenant_id; amount = a } ∷ gs)
        ]
      ]
]

unfoldable pub expired_of : ℕ → List EntryRow → Db → Result (List Grant)
expired_of now [] db = ok []
expired_of now (row ∷ rows) db =
    let rest = expired_of now rows db in if has_expired now row then add_grant row db rest else rest

unfoldable pub expired_credits : ℕ → Db → Result (List Grant)
expired_credits now db = expired_of now db.entries db

pub record CreditExpiryCronResult : Type 0 where
  pub processed : ℕ
  pub expired : List ℕ
  pub errors : List (Grant × Error)
  pub skipped_zero_balance : ℕ

abbrev pub expiry_opts : Grant → DebitOpts
expiry_opts g = record {
  reference_id = some (Ref.expiry g.entry_id);
  allow_negative = false;
  attributed_user_id = none;
}

-- `if (!expired.includes(tenant)) expired.push(tenant)`.
abbrev pub push_new : ℕ → List ℕ → List ℕ
push_new t ts = if includes ts t then ts else ts ++ (t ∷ [])

-- The result after one grant's debit.
abbrev pub tally :
    Grant → Result (Option JournalEntry) → CreditExpiryCronResult → CreditExpiryCronResult
tally g (ok none) r = record r { skipped_zero_balance = suc r.skipped_zero_balance }
tally g (ok (some _)) r = record r {
  processed = suc r.processed;
  expired = push_new g.tenant_id r.expired;
}
tally g (err e) r = record r { errors = r.errors ++ ((g, e) ∷ []) }

abbrev pub expire_grant : ℕ → ℕ → Grant → Action (Option JournalEntry)
expire_grant entry_id now g =
    debit_capped entry_id now g.tenant_id g.amount DebitType.credit_expiry (expiry_opts g)

-- The loop over the grants, which goes on after an error.
unfoldable pub sweep :
    ℕ → ℕ → List Grant → CreditExpiryCronResult → Db → CreditExpiryCronResult × Db
sweep first_id now [] r db = (r, db)
sweep first_id now (g ∷ gs) r db =
    let out = expire_grant first_id now g db in sweep (suc first_id) now gs (tally g out.0 r) out.1

unfoldable pub run_credit_expiry_cron : ℕ → ℕ → Action CreditExpiryCronResult
run_credit_expiry_cron first_id now db = elim (expired_credits now db) [
  | err e ↦ (err e, db)
  | ok grants ↦
      let out =
        sweep first_id now grants
          (record { processed = 0; expired = []; errors = []; skipped_zero_balance = 0 }) db in
      (ok out.0, out.1)
]

-- ===== src/Credits/Jobs/ExpiryLaws.antt =====
-- What a sweep of expired grants does to the balances (src/credits/credit-expiry-cron.ts).
use platform_core.Base.{
  ℕ, suc, ◌+◌, ◌≡◌, refl, ◌∙◌, inl, inr, Bool, true, false, Option, none, some, List, [], ◌∷◌,
  length, length-append, if◌then◌else◌, ◌==◌, Bool-cases, arith, All,
}
use platform_core.Base.Int.{ℤ, pos, ◌-ℤ◌, ◌≤ℤ◌, ltb_ℤ, int_laws}
use platform_core.Credits.Types.{DebitType, Code, JournalEntry, Db, Error, Result, ok, err}
use platform_core.Credits.Credit.{less_than}
use platform_core.Credits.Ledger.{
  transaction, DebitOpts, debit_capped, debit_capped_tx, stored_balance,
}
use platform_core.Credits.Ledger.Consistency.{IsConsistent}
use platform_core.Credits.Ledger.Posting.{transaction-eq-err}
use platform_core.Credits.Ledger.Capped.{debit_capped_outcome}
use platform_core.Credits.Jobs.Expiry.{
  Grant, CreditExpiryCronResult, tally, expire_grant, expiry_opts, sweep,
}

-- Books that are kept consistent while balances that are not negative fall, to zero at the lowest.
abbrev pub Reclaims : Db → Db → Type 0
Reclaims db db' =
    IsConsistent db'
    × ((j : ℕ)
        → pos 0 ≤ℤ stored_balance (Code.tenant j) db
        → (pos 0 ≤ℤ stored_balance (Code.tenant j) db')
          × (stored_balance (Code.tenant j) db' ≤ℤ stored_balance (Code.tenant j) db))

Reclaims-refl : (db : Db) → IsConsistent db → Reclaims db db
Reclaims-refl db v = (v, λ j h. (h, omega arith))

Reclaims-trans : (a b c : Db) → Reclaims a b → Reclaims b c → Reclaims a c
Reclaims-trans a b c (_, f) (v, g) = (v, λ j h. step j (f j h))
  where
    step :
        (j : ℕ)
        → (pos 0 ≤ℤ stored_balance (Code.tenant j) b)
          × (stored_balance (Code.tenant j) b ≤ℤ stored_balance (Code.tenant j) a)
        → (pos 0 ≤ℤ stored_balance (Code.tenant j) c)
          × (stored_balance (Code.tenant j) c ≤ℤ stored_balance (Code.tenant j) a)
    step j (p, q) = let (p', q') = g j p in (p', omega (arith, q, q'))

-- The balance that a capped debit leaves.
capped_falls :
    (own : Bool) (x most : ℤ)
    → pos 1 ≤ℤ most
    → pos 0 ≤ℤ x
    → (pos 0 ≤ℤ (if own then (if less_than x most then pos 0 else x -ℤ most) else x))
      × ((if own then (if less_than x most then pos 0 else x -ℤ most) else x) ≤ℤ x)
capped_falls true x most p h = elim (Bool-cases (ltb_ℤ x most)) [
  | inl b ↦ rw b (omega arith, h)
  | inr b ↦ rw b (covered b, lower)
]
  where
    covered : ltb_ℤ x most ≡ false → pos 0 ≤ℤ x -ℤ most
    covered b = grind int_laws

    lower : x -ℤ most ≤ℤ x
    lower = grind int_laws
capped_falls false x most p h = (h, omega arith)

debit_capped-eq-err :
    (i now t : ℕ) (most : ℤ) (type : DebitType) (opts : DebitOpts) (db : Db) {e : Error} {db' : Db}
    → debit_capped i now t most type opts db ≡ (err e, db')
    → db' ≡ db
debit_capped-eq-err i now t most type opts db {e} {db'} h =
    let h' : transaction (debit_capped_tx i now t most type opts) db ≡ (err e, db') =
      unfold debit_capped in h in
    transaction-eq-err (debit_capped_tx i now t most type opts) db h'

expire_grant-Reclaims :
    (i now : ℕ) (g : Grant) (db : Db)
    → IsConsistent db
    → pos 1 ≤ℤ g.amount
    → Reclaims db (expire_grant i now g db).1
expire_grant-Reclaims i now g db v p = split (expire_grant i now g db) refl
  where
    split : (x : Result (Option JournalEntry) × Db) → expire_grant i now g db ≡ x → Reclaims db x.1
    split (err e, d) h =
        rw
          (debit_capped-eq-err i now g.tenant_id g.amount DebitType.credit_expiry (expiry_opts g) db
            h)
          (Reclaims-refl db v)
    split (ok r, d) h =
        let (c, _, b) =
          debit_capped_outcome i now g.tenant_id g.amount DebitType.credit_expiry (expiry_opts g) db
            v p h in
        (
          c,
          λ j nonneg. rw (b j) (
              capped_falls (g.tenant_id == j) (stored_balance (Code.tenant j) db) g.amount p
                nonneg),
        )

-- The grants that a result speaks of.
abbrev pub count : CreditExpiryCronResult → ℕ
count r = r.processed + r.skipped_zero_balance + length r.errors

tally_counts :
    (g : Grant) (x : Result (Option JournalEntry)) (r : CreditExpiryCronResult)
    → count (tally g x r) ≡ suc (count r)
tally_counts g (ok none) r = omega arith
tally_counts g (ok (some e)) r = omega arith
tally_counts g (err e) r = omega (arith, length-append r.errors ((g, e) ∷ []))

-- On consistent books, a sweep over grants of positive amounts keeps the books consistent, lets no
-- tenant's balance that is not negative rise or fall below zero, and counts each grant once, as
-- processed, as skipped or as an error, whichever debits fail.
pub sweep-Reclaims :
    (first now : ℕ) (gs : List Grant) (r : CreditExpiryCronResult) (db : Db)
    → IsConsistent db
    → All (λ (g : Grant). pos 1 ≤ℤ g.amount) gs
    → Reclaims db (sweep first now gs r db).1
      × (count (sweep first now gs r db).0 ≡ count r + length gs)
unfolding sweep
sweep-Reclaims first now [] r db v ps = (Reclaims-refl db v, omega arith)
sweep-Reclaims first now (g ∷ gs) r db v (p, ps) =
    let out = expire_grant first now g db in
    let one = expire_grant-Reclaims first now g db v p in
    let (rest, n) = sweep-Reclaims (suc first) now gs (tally g out.0 r) out.1 one.0 ps in
    (
      Reclaims-trans db out.1 (sweep (suc first) now gs (tally g out.0 r) out.1).1 one rest,
      n ∙ omega (arith, tally_counts g out.0 r),
    )

-- ===== src/Credits/Ledger/Capped.antt =====
-- `debitCapped` (src/credits/ledger.ts): how much it takes, from every starting balance.
use platform_core.Base.{
  ◌≡◌, ◌≢◌, refl, sym, ap, ◌∙◌, Bool, true, false, none, some, arith, Option, if◌then◌else◌, ℕ, inl,
  inr, Bool-cases, ◌==◌, ◌↔◌, ==_iff,
}
use platform_core.Base.Int.{ℤ, pos, negsuc, ◌-ℤ◌, ◌≤ℤ◌, int_laws}
use platform_core.Credits.Types.{Side, DebitType, Code, code_Eq, JournalEntry, Db, ok, err, Result}
use platform_core.Credits.Credit.{less_than}
use platform_core.Credits.Ledger.Tx.{transaction}
use platform_core.Credits.Ledger.Post.{stored_balance}
use platform_core.Credits.Ledger.Methods.{
  debit_lines, DebitOpts, capped_row, debit_capped_tx, debit_capped,
}
use platform_core.Credits.Ledger.Lines.{line_total}
use platform_core.Credits.Ledger.Consistency.{IsConsistent}
use platform_core.Credits.Ledger.Locks.{Locked}
use platform_core.Credits.Ledger.Posting.{transaction-eq-err, Recorded-IsConsistent}
use platform_core.Credits.Ledger.Recorded.{Recorded}
use platform_core.Credits.Ledger.Effects.{Recorded-balance, debit_lines_net, sub_if}
use platform_core.Credits.Ledger.CappedSteps.{
  write_capped-Recorded, write_capped-lines, capped_amount, take_capped-eq-ok, debit_capped-locks,
}

-- What the books and the balances are after `debitCapped`.
abbrev pub CappedOutcome : ℕ → ℤ → Db → Option JournalEntry → Db → Type 0
CappedOutcome t most db r db' =
    IsConsistent db'
    × ((r ≡ none) ↔ (stored_balance (Code.tenant t) db ≡ pos 0))
    × ((j : ℕ)
        → stored_balance (Code.tenant j) db' ≡ (
            if t == j
            then (if less_than (stored_balance (Code.tenant j) db) most
                then pos 0
                else stored_balance (Code.tenant j) db -ℤ most)
            else stored_balance (Code.tenant j) db))

capped_rest :
    (b most : ℤ) → b -ℤ capped_amount b most ≡ (if less_than b most then pos 0 else b -ℤ most)
capped_rest b most = grind int_laws

capped_zero :
    (b most : ℤ) → pos 1 ≤ℤ most → b ≡ pos 0 → (if less_than b most then pos 0 else b -ℤ most) ≡ b
capped_zero b most p z = ground arith

if_same : (b : Bool) (x : ℤ) → (if b then x else x) ≡ x
if_same true x = refl
if_same false x = refl

debit_lines-balanced :
    (t : ℕ) (type : DebitType) (amount : ℤ)
    → line_total Side.debit (debit_lines t type amount)
      ≡ line_total Side.credit (debit_lines t type amount)
unfolding line_total
debit_lines-balanced t type amount = refl

Locked-IsConsistent : (db d : Db) → Locked db d → IsConsistent db → IsConsistent d
Locked-IsConsistent db d l v = record {
  balanced = rw l.same_lines v.balanced;
  materialized = l.materialized v.materialized;
}

-- A balance of zero: nothing is taken.
outcome_zero :
    (t : ℕ) (most : ℤ) (db : Db) (r : Option JournalEntry) (d : Db)
    → IsConsistent db
    → pos 1 ≤ℤ most
    → Locked db d
    → stored_balance (Code.tenant t) d ≡ pos 0
    → r ≡ none
    → CappedOutcome t most db r d
outcome_zero t most db r d v p l z e = (
  Locked-IsConsistent db d l v,
  (λ _. sym (l.same_balances (Code.tenant t)) ∙ z, λ _. e),
  λ j. l.same_balances (Code.tenant j) ∙ elim (Bool-cases (t == j)) [
    | inl same ↦
        let zj : stored_balance (Code.tenant j) db ≡ pos 0 =
          rw ((==_iff t j).0 same) at (sym (l.same_balances (Code.tenant t)) ∙ z) in
        rw same (sym (capped_zero (stored_balance (Code.tenant j) db) most p zj))
    | inr other ↦ rw other
  ],
)

outcome_some :
    (i now t : ℕ) (most : ℤ) (type : DebitType) (opts : DebitOpts) (db : Db)
    (r : Option JournalEntry) (d : Db) (entry : JournalEntry) (db' : Db)
    → IsConsistent db
    → Locked db d
    → stored_balance (Code.tenant t) d ≢ pos 0
    → r ≡ some entry
    → Recorded
        (capped_row i now t type opts)
        (debit_lines t type (capped_amount (stored_balance (Code.tenant t) d) most))
        d
        db'
    → CappedOutcome t most db r db'
outcome_some i now t most type opts db r d entry db' v l nz e rec =
    let amount = capped_amount (stored_balance (Code.tenant t) d) most in
    let vd = Locked-IsConsistent db d l v in
    (
      Recorded-IsConsistent _ (debit_lines t type amount) d db' (debit_lines-balanced t type amount)
          rec vd,
      (λ n. cc, λ z. absurd (nz (l.same_balances (Code.tenant t) ∙ z))),
      λ j.
          Recorded-balance j _ (debit_lines t type amount) d db' vd.materialized rec
          ∙ rw (debit_lines_net t j type amount) (
              sub_if (t == j) _ amount ∙ elim (Bool-cases (t == j)) [
                | inl same ↦
                    let e' : t ≡ j = (==_iff t j).0 same in
                    rw (same, ← e', l.same_balances (Code.tenant t))
                      (capped_rest (stored_balance (Code.tenant t) db) most)
                | inr other ↦ rw (other, l.same_balances (Code.tenant j))
              ]),
    )

debit_capped-eq-ok-IsConsistent :
    (i now t : ℕ) (most : ℤ) (type : DebitType) (opts : DebitOpts) (db : Db)
    {r : Option JournalEntry} {db' : Db}
    → IsConsistent db
    → debit_capped i now t most type opts db ≡ (ok r, db')
    → IsConsistent db'
debit_capped-eq-ok-IsConsistent i now t most type opts db {r} {db'} v h =
    let (d, l, row, row', (a, ea), (b, eb), rest) =
      debit_capped-locks i now t most type opts db h in
    let vd = Locked-IsConsistent db d l v in
    let amount = capped_amount (stored_balance (Code.tenant t) d) most in
    elim (take_capped-eq-ok i now t most type opts d rest) [
      | inl (z, e, same) ↦ rw same vd
      | inr (entry, e, nz, w) ↦
          Recorded-IsConsistent (capped_row i now t type opts) (debit_lines t type amount) d db'
            (debit_lines-balanced t type amount)
            (write_capped-Recorded i now t amount type opts d a b vd.materialized ea eb row row' w)
            vd
    ]

-- On consistent books `debitCapped` leaves consistent books, whether it returns or throws.
pub debit_capped-IsConsistent :
    (i now t : ℕ) (most : ℤ) (type : DebitType) (opts : DebitOpts) (db : Db)
    → IsConsistent db
    → IsConsistent (debit_capped i now t most type opts db).1
debit_capped-IsConsistent i now t most type opts db v =
    go (debit_capped i now t most type opts db) refl
  where
    go :
        (x : Result (Option JournalEntry) × Db)
        → debit_capped i now t most type opts db ≡ x
        → IsConsistent x.1
    go (ok r, db') e = debit_capped-eq-ok-IsConsistent i now t most type opts db v e
    go (err x, db') e =
        let e' : transaction (debit_capped_tx i now t most type opts) db ≡ (err x, db') =
          unfold debit_capped in e in
        rw (transaction-eq-err (debit_capped_tx i now t most type opts) db e') v

-- On consistent books and with a positive maximum, `debitCapped` leaves consistent books when it
-- returns; it returns null exactly if the tenant's balance was zero; the tenant's balance becomes
-- zero if it was below the maximum and falls by the maximum otherwise; and no other tenant's balance
-- changes.
pub debit_capped_outcome :
    (i now t : ℕ) (most : ℤ) (type : DebitType) (opts : DebitOpts) (db : Db)
    {r : Option JournalEntry} {db' : Db}
    → IsConsistent db
    → pos 1 ≤ℤ most
    → debit_capped i now t most type opts db ≡ (ok r, db')
    → CappedOutcome t most db r db'
debit_capped_outcome i now t most type opts db {r} {db'} v p h =
    let (d, l, row, row', (a, ea), (b, eb), rest) =
      debit_capped-locks i now t most type opts db h in
    elim (take_capped-eq-ok i now t most type opts d rest) [
      | inl (z, e, same) ↦ rw same (outcome_zero t most db r d v p l z e)
      | inr (entry, e, nz, w) ↦ outcome_some i now t most type opts db r d entry db' v l nz e (
          write_capped-Recorded i now t (capped_amount (stored_balance (Code.tenant t) d) most) type
            opts d a b (l.materialized v.materialized) ea eb row row' w)
    ]

-- On consistent books, a tenant whose balance is below zero has it set to zero by a `debitCapped` that
-- returns, whatever the positive maximum: it returns an entry of the tenant's debit and the other account's
-- credit whose amounts are both the negative balance.
pub debit_capped_forgives_debt :
    (i now t : ℕ) (most : ℤ) (type : DebitType) (opts : DebitOpts) (db : Db)
    {r : Option JournalEntry} {db' : Db}
    → IsConsistent db
    → pos 1 ≤ℤ most
    → stored_balance (Code.tenant t) db ≤ℤ negsuc 0
    → debit_capped i now t most type opts db ≡ (ok r, db')
    → (stored_balance (Code.tenant t) db' ≡ pos 0)
      × ((entry : JournalEntry) × (r ≡ some entry)
          × (entry.lines ≡ debit_lines t type (stored_balance (Code.tenant t) db)))
debit_capped_forgives_debt i now t most type opts db {r} {db'} v p debt h =
    let (c, n, b) = debit_capped_outcome i now t most type opts db v p h in
    let (d, l, row, row', (a, ea), (b', eb), rest) =
      debit_capped-locks i now t most type opts db h in
    let same = l.same_balances (Code.tenant t) in
    (
      ground (arith, b t),
      elim (take_capped-eq-ok i now t most type opts d rest) [
        | inl (z, e, u) ↦ absurd (ground (arith, same))
        | inr (entry, e, nz, w) ↦ (
          entry,
          e,
          write_capped-lines i now t (capped_amount (stored_balance (Code.tenant t) d) most) type
                opts d w
              ∙ ap (λ (x : ℤ). debit_lines t type (capped_amount x most)) same
              ∙ ap (debit_lines t type) (taken (stored_balance (Code.tenant t) db) debt p),
        )
      ],
    )
  where
    taken : (x : ℤ) → x ≤ℤ negsuc 0 → pos 1 ≤ℤ most → capped_amount x most ≡ x
    taken x u v = ground arith

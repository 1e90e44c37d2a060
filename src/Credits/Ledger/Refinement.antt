-- ===== src/Credits/Ledger/Refinement.antt =====
-- The ledger's methods (src/credits/ledger.ts) against the wallets that they keep.
use mathlib.Core.Path.{subst, fun_ext}
use platform_core.Base.{
  ℕ, ◌≡◌, inl, inr, refl, ◌∙◌, ap, true, Option, none, some, List, [], ◌∷◌, any, All,
}
use platform_core.Base.Int.{ℤ, pos, ◌≤ℤ◌}
use platform_core.Credits.Types.{
  Side, code_Eq, Code, CreditType, DebitType, Ref, EntryRow, JournalEntry, Db, Result, ok, err,
}
use platform_core.Credits.Ledger.Tx.{>>=-eq-ok, transaction}
use platform_core.Credits.Ledger.Accounts.{
  has_reference_id, insert_entry, same_ref, debit_type_account,
}
use platform_core.Credits.Ledger.Post.{stored_balance, entry_row}
use platform_core.Credits.Ledger.Methods.{
  CreditOpts, DebitOpts, credit_input, debit_input, credit, debit, debit_capped, debit_capped_tx,
  capped_row, capped_line, debit_lines, capped_writes, write_capped,
}
use platform_core.Credits.Ledger.Consistency.{IsConsistent}
use platform_core.Credits.Ledger.Locks.{Locked}
use platform_core.Credits.Ledger.Recorded.{IsFresh}
use platform_core.Credits.Ledger.Posting.{post-Posted, transaction-eq-err}
use platform_core.Credits.Ledger.Effects.{
  credit-post, debit-post, credit-eq-err, debit-eq-err, credit_moves_balance, debit_moves_balance,
}
use platform_core.Credits.Ledger.CappedSteps.{
  capped_amount, write_capped-Recorded, take_capped-eq-ok, debit_capped-locks,
}
use platform_core.Credits.Ledger.Capped.{debit_capped-IsConsistent, debit_capped_outcome}
use platform_core.Credits.Ledger.Reachable.{credit-IsConsistent, debit-IsConsistent}
use platform_core.Credits.Ledger.References.{IsFresh-has_reference_id}
use platform_core.Credits.Ledger.Wallets.{
  wallets, Call, credits, debits, caps, IsNew, book, raised, lowered, drained, Promised, Trace,
  returned, call, run, HasMaximum,
}

-- A fresh row has a new reference id, and is the only change of what was used.
IsFresh-IsNew : (row : EntryRow) (db : Db) → IsFresh row db → IsNew row.reference_id (wallets db)
IsFresh-IsNew row db f = named row.reference_id refl
  where
    named : (o : Option Ref) → row.reference_id ≡ o → IsNew o (wallets db)
    named none e = tt
    named (some r) e = IsFresh-has_reference_id row db r e f

wallets-book :
    (row : EntryRow) (held : ℕ → ℤ) (db db' : Db)
    → db'.entries ≡ row ∷ db.entries
    → ((j : ℕ) → stored_balance (Code.tenant j) db' ≡ held j)
    → wallets db' ≡ book row.reference_id held (wallets db)
unfolding has_reference_id
wallets-book row held db db' e moves =
    ap (λ (b : ℕ → ℤ). record { held = b; used = (wallets db').used }) (fun_ext moves)
    ∙ ap (λ (es : List EntryRow). record { held = held; used = λ r. any (same_ref r) es }) e

Locked-wallets : (db d : Db) → Locked db d → wallets d ≡ wallets db
unfolding has_reference_id
Locked-wallets db d l =
    ap (λ (b : ℕ → ℤ). record { held = b; used = (wallets d).used })
      (fun_ext (λ j. l.same_balances (Code.tenant j)))
    ∙ ap
        (λ (es : List EntryRow). record {
          held = (wallets db).held;
          used = λ r. any (same_ref r) es;
        })
        l.same_entries

credit-Promised :
    (i now t : ℕ) (amount : ℤ) (type : CreditType) (opts : CreditOpts) (db : Db)
    {entry : JournalEntry} {db' : Db}
    → IsConsistent db
    → credit i now t amount type opts db ≡ (ok entry, db')
    → Promised (credits i now t amount type opts) true (wallets db) (wallets db')
credit-Promised i now t amount type opts db {entry} {db'} v h =
    let (p, h') = credit-post i now t amount type opts db h in
    let posted = post-Posted i now (credit_input t amount type opts) db h' in
    let (_, moves) = credit_moves_balance i now t amount type opts db v h in
    (
      p,
      IsFresh-IsNew (entry_row i now (credit_input t amount type opts)) db posted.fresh,
      wallets-book (entry_row i now (credit_input t amount type opts))
          (raised t amount (wallets db)) db db' posted.recorded.entries moves,
    )

debit-Promised :
    (i now t : ℕ) (amount : ℤ) (type : DebitType) (opts : DebitOpts) (db : Db)
    {entry : JournalEntry} {db' : Db}
    → IsConsistent db
    → debit i now t amount type opts db ≡ (ok entry, db')
    → Promised (debits i now t amount type opts) true (wallets db) (wallets db')
debit-Promised i now t amount type opts db {entry} {db'} v h =
    let (p, h') = debit-post i now t amount type opts db h in
    let posted = post-Posted i now (debit_input t amount type opts) db h' in
    let (_, moves, covered) = debit_moves_balance i now t amount type opts db v h in
    (
      p,
      covered,
      IsFresh-IsNew (entry_row i now (debit_input t amount type opts)) db posted.fresh,
      wallets-book (entry_row i now (debit_input t amount type opts))
          (lowered t amount (wallets db)) db db' posted.recorded.entries moves,
    )

write_capped-IsFresh :
    (i now t : ℕ) (amount : ℤ) (type : DebitType) (opts : DebitOpts) (db : Db)
    {entry : JournalEntry} {db' : Db}
    → write_capped i now t amount type opts db ≡ ok (entry, db')
    → IsFresh (capped_row i now t type opts) db
unfolding write_capped
write_capped-IsFresh i now t amount type opts db {entry} {db'} h =
    let (u, d, e, _) =
      >>=-eq-ok (insert_entry (capped_row i now t type opts))
        (λ _.
          capped_writes i (capped_line (Code.tenant t) amount Side.debit)
            (capped_line (debit_type_account type) amount Side.credit)
            (record { header = capped_row i now t type opts; lines = debit_lines t type amount }))
        db h in
    (u, d, e)

debit_capped-Promised :
    (i now t : ℕ) (most : ℤ) (type : DebitType) (opts : DebitOpts) (db : Db)
    {r : Option JournalEntry} {db' : Db}
    → IsConsistent db
    → pos 1 ≤ℤ most
    → debit_capped i now t most type opts db ≡ (ok r, db')
    → Promised (caps i now t most type opts) true (wallets db) (wallets db')
debit_capped-Promised i now t most type opts db {r} {db'} v p h =
    let (d, l, row, row', (a, ea), (b, eb), rest) =
      debit_capped-locks i now t most type opts db h in
    let (_, zero_iff, moves) = debit_capped_outcome i now t most type opts db v p h in
    elim (take_capped-eq-ok i now t most type opts d rest) [
      | inl (z, e, same) ↦ inl (zero_iff.0 e, ap wallets same ∙ Locked-wallets db d l)
      | inr (entry, e, nz, w) ↦
          let recorded =
            write_capped-Recorded i now t (capped_amount (stored_balance (Code.tenant t) d) most)
              type opts d a b (l.materialized v.materialized) ea eb row row' w in
          inr (
            λ z. nz (l.same_balances (Code.tenant t) ∙ z),
            subst (IsNew opts.reference_id) (Locked-wallets db d l) (
                IsFresh-IsNew (capped_row i now t type opts) d (
                  write_capped-IsFresh i now t
                    (capped_amount (stored_balance (Code.tenant t) d) most) type opts d w)),
            wallets-book (capped_row i now t type opts) (drained t most (wallets db)) db db'
                (recorded.entries
                  ∙ ap (λ (es : List EntryRow). capped_row i now t type opts ∷ es) l.same_entries)
                moves,
          )
    ]

-- One call.
call-Promised :
    (c : Call) (db : Db)
    → HasMaximum c
    → IsConsistent db
    → Promised c (call c db).0 (wallets db) (wallets (call c db).1) × IsConsistent (call c db).1
call-Promised (credits i now t amount type opts) db p v = (
  answered (credit i now t amount type opts db) refl,
  credit-IsConsistent i now t amount type opts db v,
)
  where
    answered :
        (y : Result JournalEntry × Db)
        → credit i now t amount type opts db ≡ y
        → Promised (credits i now t amount type opts) (returned y.0) (wallets db) (wallets y.1)
    answered (ok entry, db') h = credit-Promised i now t amount type opts db v h
    answered (err e, db') h = ap wallets (credit-eq-err i now t amount type opts db h)
call-Promised (debits i now t amount type opts) db p v = (
  answered (debit i now t amount type opts db) refl,
  debit-IsConsistent i now t amount type opts db v,
)
  where
    answered :
        (y : Result JournalEntry × Db)
        → debit i now t amount type opts db ≡ y
        → Promised (debits i now t amount type opts) (returned y.0) (wallets db) (wallets y.1)
    answered (ok entry, db') h = debit-Promised i now t amount type opts db v h
    answered (err e, db') h = ap wallets (debit-eq-err i now t amount type opts db h)
call-Promised (caps i now t most type opts) db p v = (
  answered (debit_capped i now t most type opts db) refl,
  debit_capped-IsConsistent i now t most type opts db v,
)
  where
    answered :
        (y : Result (Option JournalEntry) × Db)
        → debit_capped i now t most type opts db ≡ y
        → Promised (caps i now t most type opts) (returned y.0) (wallets db) (wallets y.1)
    answered (ok r, db') h = debit_capped-Promised i now t most type opts db v p h
    answered (err e, db') h =
        let thrown : transaction (debit_capped_tx i now t most type opts) db ≡ (err e, db') =
          unfold debit_capped in h in
        ap wallets (transaction-eq-err (debit_capped_tx i now t most type opts) db thrown)

-- From consistent books, any calls of `credit`, `debit` and `debitCapped`, the last with positive maxima,
-- are calls on wallets with the same answers. A call that throws changes no wallet and no reference id. A
-- credit or debit that returns had a positive amount and a new reference id, if any, and moves the balance
-- of its tenant by the amount; a debit that may not go below zero was covered. A `debitCapped` that returns
-- does nothing at a balance of zero; else its reference id was new, and the balance falls by the maximum, or
-- to zero if it was lower. No other balance moves, and exactly the reference ids of these calls are added.
pub run-Trace :
    (cs : List Call) (db : Db)
    → All HasMaximum cs
    → IsConsistent db
    → Trace cs (run cs db).0 (wallets db) (wallets (run cs db).1)
run-Trace [] db p v = refl
run-Trace (c ∷ cs) db (p, ps) v =
    let (first, v') = call-Promised c db p v in
    (wallets (call c db).1, first, run-Trace cs (call c db).1 ps v')

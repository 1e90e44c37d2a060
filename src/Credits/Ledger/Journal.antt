-- ===== src/Credits/Ledger/Journal.antt =====
-- The journal only grows (src/credits/ledger.ts): a reference id that it has stays in it.
use platform_core.Base.{ℕ, ◌≡◌, refl, ap, inl, inr, true, Option, List, [], ◌∷◌, arith, if_ind}
use platform_core.Base.Int.{ℤ}
use platform_core.Base.Loops.{for_each}
use platform_core.Credits.Types.{
  CreditType, DebitType, Code, Account, Ref, PostEntryInput, EntryRow, JournalEntry, Db, Result, ok,
  err,
}
use platform_core.Credits.Ledger.Tx.{transaction}
use platform_core.Credits.Ledger.Accounts.{
  has_reference_id, seed_account, seed_system_accounts, system_accounts, insert_account,
}
use platform_core.Credits.Ledger.Post.{post, write_line, entry_row}
use platform_core.Credits.Ledger.Methods.{
  CreditOpts, DebitOpts, credit_input, debit_input, credit, debit, debit_capped, debit_capped_tx,
  capped_row,
}
use platform_core.Credits.Ledger.Posting.{post-Posted, post-eq-err, transaction-eq-err}
use platform_core.Credits.Ledger.CappedSteps.{
  write_capped-eq-ok, take_capped-eq-ok, debit_capped-locks,
}
use platform_core.Credits.Ledger.Reachable.{Step, seeds, posts, credits, debits, caps}

-- The books after further calls.
pub data Later (db : Db) : Db → Type 0 where
  same : Later db db
  after : {d d' : Db} → Later db d → Step d d' → Later db d'

module _ (r : Ref) where
  abbrev Has : Db → Type 0
  Has db = has_reference_id r db ≡ true

  Has-entries : (db db' : Db) → db'.entries ≡ db.entries → Has db → Has db'
  unfolding has_reference_id
  Has-entries db db' e h = rw e h

  Has-entry : (row : EntryRow) (db db' : Db) → db'.entries ≡ row ∷ db.entries → Has db → Has db'
  unfolding has_reference_id
  Has-entry row db db' e h = rw e (ground (arith, h))

  Has-post : (i now : ℕ) (input : PostEntryInput) (db : Db) → Has db → Has (post i now input db).1
  Has-post i now input db h = answered (post i now input db) refl
    where
      answered : (y : Result JournalEntry × Db) → post i now input db ≡ y → Has y.1
      answered (ok entry, d) q =
          Has-entry (entry_row i now input) db d (post-Posted i now input db q).recorded.entries h
      answered (err e, d) q = rw (post-eq-err i now input db q) h

  Has-credit :
      (i now t : ℕ) (amount : ℤ) (type : CreditType) (opts : CreditOpts) (db : Db)
      → Has db
      → Has (credit i now t amount type opts db).1
  unfolding credit
  Has-credit i now t amount type opts db h =
      if_ind (λ (y : Result JournalEntry × Db). Has y.1) _ _ _ (λ _. h)
        (λ _. Has-post i now (credit_input t amount type opts) db h)

  Has-debit :
      (i now t : ℕ) (amount : ℤ) (type : DebitType) (opts : DebitOpts) (db : Db)
      → Has db
      → Has (debit i now t amount type opts db).1
  unfolding debit
  Has-debit i now t amount type opts db h =
      if_ind (λ (y : Result JournalEntry × Db). Has y.1) _ _ _ (λ _. h)
        (λ _. Has-post i now (debit_input t amount type opts) db h)

  Has-debit_capped :
      (i now t : ℕ) (most : ℤ) (type : DebitType) (opts : DebitOpts) (db : Db)
      → Has db
      → Has (debit_capped i now t most type opts db).1
  unfolding write_line
  Has-debit_capped i now t most type opts db h =
      answered (debit_capped i now t most type opts db) refl
    where
      answered :
          (y : Result (Option JournalEntry) × Db)
          → debit_capped i now t most type opts db ≡ y
          → Has y.1
      answered (err e, d) q =
          let thrown : transaction (debit_capped_tx i now t most type opts) db ≡ (err e, d) =
            unfold debit_capped in q in
          rw (transaction-eq-err (debit_capped_tx i now t most type opts) db thrown) h
      answered (ok x, d') q =
          let (d, l, row, row', (a, ea), (b, eb), rest) =
            debit_capped-locks i now t most type opts db q in
          let hd = Has-entries db d l.same_entries h in
          elim (take_capped-eq-ok i now t most type opts d rest) [
            | inl (z, e, unchanged) ↦ rw unchanged hd
            | inr (entry, e, nz, w) ↦
                Has-entry (capped_row i now t type opts) d d'
                  (ap (λ (x : Db). x.entries) (write_capped-eq-ok i now t _ type opts d b eb w)) hd
          ]

  Has-seed_all : (xs : List (Code × Account)) (db : Db) → Has db → Has (for_each seed_account xs db)
  unfolding for_each seed_account insert_account
  Has-seed_all [] db h = h
  Has-seed_all (x ∷ xs) db h =
      Has-seed_all xs (seed_account x db) (Has-entries db (seed_account x db) refl h)

  Has-Step : (db : Db) {db' : Db} → Step db db' → Has db → Has db'
  unfolding seed_system_accounts
  Has-Step db seeds h = Has-seed_all system_accounts db h
  Has-Step db (posts i now input) h = Has-post i now input db h
  Has-Step db (credits i now t amount type opts) h = Has-credit i now t amount type opts db h
  Has-Step db (debits i now t amount type opts) h = Has-debit i now t amount type opts db h
  Has-Step db (caps i now t most type opts) h = Has-debit_capped i now t most type opts db h

  pub Has-Later : {db db' : Db} → Later db db' → Has db → Has db'
  Has-Later same h = h
  Has-Later (after {d} p s) h = Has-Step d s (Has-Later p h)

-- ===== src/Credits/Ledger/Tx.antt =====
-- Database transactions of the ledger (src/credits/ledger.ts): a state that an exception rolls back.
-- The row locks that the code takes serialise the transactions, so one runs at a time.
use platform_core.Base.{◌≡◌, ⊤}
use platform_core.Credits.Types.{Db, Error, Result, ok, err}

abbrev pub Tx : Type 0 → Type 0
Tx A = Db → Result (A × Db)

-- A method of the ledger: what it returns or throws, and the tables it leaves.
abbrev pub Action : Type 0 → Type 0
Action A = Db → Result A × Db

infixl 5 ◌>>=◌ ◌>>◌
abbrev pub ◌>>=◌ : {A B : Type 0} → Tx A → (A → Tx B) → Tx B
◌>>=◌ m f db = elim (m db) [ ok (a, db') ↦ f a db' | err e ↦ err e ]

abbrev pub ◌>>◌ : {A B : Type 0} → Tx A → Tx B → Tx B
m >> k = m >>= λ _. k

module _ {A : Type 0} where
  abbrev pub pure : A → Tx A
  pure a db = ok (a, db)

  abbrev pub throw : Error → Tx A
  throw e db = err e

  abbrev pub lift : Result A → Tx A
  lift (ok a) db = ok (a, db)
  lift (err e) db = err e

  -- `this.db.transaction(m)`: commit, or roll back and rethrow.
  abbrev pub transaction : Tx A → Action A
  transaction m db = elim (m db) [ ok (a, db') ↦ (ok a, db') | err e ↦ (err e, db) ]

abbrev pub modify : (Db → Db) → Tx ⊤
modify f db = ok (tt, f db)

abbrev pub gets : {A : Type 0} → (Db → A) → Tx A
gets f db = ok (f db, db)

-- Inversion of a successful bind.
pub >>=-eq-ok :
    {A B : Type 0} (m : Tx A) (f : A → Tx B) (db : Db) {r : B × Db}
    → (m >>= f) db ≡ ok r
    → (a : A) × (db' : Db) × (m db ≡ ok (a, db')) × (f a db' ≡ ok r)
>>=-eq-ok {A} {B} m f db {r} h = go (m db) (λ i. m db) h
  where
    go :
        (x : Result (A × Db))
        → m db ≡ x
        → (elim x [ ok (a, db') ↦ f a db' | err e ↦ err e ]) ≡ ok r
        → (a : A) × (db' : Db) × (m db ≡ ok (a, db')) × (f a db' ≡ ok r)
    go (ok (a, db')) e h' = (a, db', e, h')
    go (err e) e' h' = cc

-- A bind after a step that succeeds.
pub >>=_ok :
    {A B : Type 0} (m : Tx A) (f : A → Tx B) (db : Db) {a : A} {db' : Db} {r : Result (B × Db)}
    → m db ≡ ok (a, db')
    → f a db' ≡ r
    → (m >>= f) db ≡ r
>>=_ok m f db e k = rw (e, ◌>>=◌) k

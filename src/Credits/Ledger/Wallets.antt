-- ===== src/Credits/Ledger/Wallets.antt =====
-- What the ledger (src/credits/ledger.ts) promises of `credit`, `debit` and `debitCapped`, without its
-- tables: a balance for each tenant, and the reference ids that were used.
use platform_core.Base.{
  ℕ, ◌≡◌, ◌≢◌, ◌⊎◌, ⊤, Bool, true, false, ◌||◌, ◌==◌, if◌then◌else◌, Option, none, some, List, [],
  ◌∷◌,
}
use platform_core.Base.Int.{ℤ, pos, ◌+ℤ◌, ◌-ℤ◌, ◌≤ℤ◌}
use platform_core.Credits.Types.{Code, CreditType, DebitType, Ref, ref_eq, Db, Result, ok, err}
use platform_core.Credits.Credit.{less_than}
use platform_core.Credits.Ledger.Accounts.{has_reference_id}
use platform_core.Credits.Ledger.Post.{stored_balance}
use platform_core.Credits.Ledger.Methods.{CreditOpts, DebitOpts, credit, debit, debit_capped}

pub record Wallets : Type 0 where
  pub held : ℕ → ℤ
  pub used : Ref → Bool

-- The wallets that the tables stand for.
abbrev pub wallets : Db → Wallets
wallets db = record {
  held = λ t. stored_balance (Code.tenant t) db;
  used = λ r. has_reference_id r db;
}

-- A call, with the entry's id and the time that it draws.
pub data Call : Type 0 where
  credits : ℕ → ℕ → ℕ → ℤ → CreditType → CreditOpts → Call
  debits caps : ℕ → ℕ → ℕ → ℤ → DebitType → DebitOpts → Call

abbrev pub is_ref : Ref → Option Ref → Bool
is_ref r o = elim o [ none ↦ false | some q ↦ ref_eq r q ]

abbrev pub IsNew : Option Ref → Wallets → Type 0
IsNew none w = ⊤
IsNew (some r) w = w.used r ≡ false

abbrev pub book : Option Ref → (ℕ → ℤ) → Wallets → Wallets
book r held w = record { held = held; used = λ x. is_ref x r || w.used x }

abbrev pub raised : ℕ → ℤ → Wallets → ℕ → ℤ
raised t amount w j = if t == j then w.held j +ℤ amount else w.held j

abbrev pub lowered : ℕ → ℤ → Wallets → ℕ → ℤ
lowered t amount w j = if t == j then w.held j -ℤ amount else w.held j

abbrev pub drained : ℕ → ℤ → Wallets → ℕ → ℤ
drained t most w j =
    if t == j then (if less_than (w.held j) most then pos 0 else w.held j -ℤ most) else w.held j

-- A call that throws changes nothing; one that returns has met its conditions and books its amount.
abbrev pub Promised : Call → Bool → Wallets → Wallets → Type 0
Promised c false w w' = w' ≡ w
Promised (credits i now t amount type opts) true w w' =
    (pos 1 ≤ℤ amount)
    × IsNew opts.reference_id w
    × (w' ≡ book opts.reference_id (raised t amount w) w)
Promised (debits i now t amount type opts) true w w' =
    (pos 1 ≤ℤ amount)
    × (opts.allow_negative ≡ false → amount ≤ℤ w.held t)
    × IsNew opts.reference_id w
    × (w' ≡ book opts.reference_id (lowered t amount w) w)
Promised (caps i now t most type opts) true w w' =
    ((w.held t ≡ pos 0) × (w' ≡ w))
    ⊎ ((w.held t ≢ pos 0)
        × IsNew opts.reference_id w
        × (w' ≡ book opts.reference_id (drained t most w) w))

-- Calls that return or throw as the answers say.
abbrev pub Trace : List Call → List Bool → Wallets → Wallets → Type 0
Trace [] [] w w' = w' ≡ w
Trace (c ∷ cs) (b ∷ bs) w w' = (m : Wallets) × Promised c b w m × Trace cs bs m w'
Trace _ _ w w' = ⊥

abbrev pub returned : {A : Type 0} → Result A → Bool
returned (ok a) = true
returned (err e) = false

abbrev pub call : Call → Db → Bool × Db
call (credits i now t amount type opts) db =
    let (r, db') = credit i now t amount type opts db in (returned r, db')
call (debits i now t amount type opts) db =
    let (r, db') = debit i now t amount type opts db in (returned r, db')
call (caps i now t most type opts) db =
    let (r, db') = debit_capped i now t most type opts db in (returned r, db')

abbrev pub run : List Call → Db → List Bool × Db
run [] db = ([], db)
run (c ∷ cs) db = let (bs, db') = run cs (call c db).1 in ((call c db).0 ∷ bs, db')

-- `debitCapped` is called with a positive maximum.
abbrev pub HasMaximum : Call → Type 0
HasMaximum (caps i now t most type opts) = pos 1 ≤ℤ most
HasMaximum _ = ⊤

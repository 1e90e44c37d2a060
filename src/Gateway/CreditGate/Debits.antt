-- ===== src/Gateway/CreditGate/Debits.antt =====
-- What a debit after a request does and reports (src/gateway/credit-gate.ts).
use platform_core.Base.{
  ℕ, ◌≡◌, refl, ◌∙◌, ap, ◌⊎◌, inl, inr, Bool, true, false, ◌&&◌, ◌||◌, not, Option, List, [], ◌∷◌,
  ◌++◌, any, if◌then◌else◌, ◌==◌, Bool-cases, arith,
}
use platform_core.Base.Int.{ℤ, pos, ◌+ℤ◌, ◌-ℤ◌, ◌≤ℤ◌, ltb_ℤ, eqb_ℤ, int_laws}
use platform_core.Credits.Types.{DebitType, Code, JournalEntry, Db, Error, Result, ok, err}
use platform_core.Credits.Credit.{
  from_raw, add, checked, is_safe, max_safe, is_zero, is_negative, greater_than,
}
use platform_core.Credits.Ledger.{debit, balance, account_balance, stored_balance}
use platform_core.Credits.Ledger.Consistency.{IsConsistent}
use platform_core.Credits.Ledger.Effects.{debit_moves_balance, debit-eq-err}
use platform_core.Gateway.CreditGate.{
  CreditGateDeps, Event, debit_opts, exhaustion, when, notify, debit_credits, begin_debit,
  end_debit, debited,
}

abbrev pub is_exhausted : Event → Bool
is_exhausted (Event.balance_exhausted _) = true
is_exhausted Event.debit_complete = false
is_exhausted Event.spend_alert_crossed = false
is_exhausted Event.deduction_failure = false

-- Whether a charge takes a balance from above zero to zero or below.
abbrev pub crosses_zero : ℤ → ℤ → Bool
crosses_zero before charge = ltb_ℤ (pos 0) before && not (ltb_ℤ (pos 0) (before -ℤ charge))

-- The test of the code, on the balance that is left, is the crossing.
crossing :
    (before charge left : ℤ)
    → left ≡ before -ℤ charge
    → (greater_than (left +ℤ charge) (pos 0) && (is_negative left || is_zero left))
      ≡ crosses_zero before charge
crossing before charge left h =
    rw (h, add_back) (not_positive (ltb_ℤ (pos 0) before) (before -ℤ charge))
  where
    add_back : (before -ℤ charge) +ℤ charge ≡ before
    add_back = grind int_laws

    not_positive :
        (b : Bool) (x : ℤ)
        → (b && (ltb_ℤ x (pos 0) || eqb_ℤ x (pos 0))) ≡ (b && not (ltb_ℤ (pos 0) x))
    not_positive b x = ground arith

any_when :
    (b : Bool) (x : ℤ) → any is_exhausted (if b then Event.balance_exhausted x ∷ [] else []) ≡ b
any_when true x = refl
any_when false x = refl

ok_if : {A : Type 0} (b : Bool) (x y : A) → (if b then ok x else ok y) ≡ ok (if b then x else y)
ok_if true x y = refl
ok_if false x y = refl

-- The amounts of the re-read are out of range: the balance, or the sum with the charge.
abbrev pub IsOutOfRange : ℤ → ℤ → Type 0
IsOutOfRange left charge = (ltb_ℤ (pos max_safe) left ≡ true) ⊎ (is_safe (left +ℤ charge) ≡ false)

balance-range :
    (t : ℕ) (db : Db)
    → ((e : Error) × (balance t db ≡ err e)
        × (ltb_ℤ (pos max_safe) (stored_balance (Code.tenant t) db) ≡ true))
      ⊎ (balance t db ≡ ok (stored_balance (Code.tenant t) db))
unfolding balance account_balance from_raw
balance-range t db = elim (Bool-cases (ltb_ℤ (pos max_safe) (stored_balance (Code.tenant t) db))) [
  | inl b ↦ inl (Error.range_error, rw b refl, b)
  | inr b ↦ inr (rw b refl)
]

add-range :
    (a b : ℤ)
    → ((e : Error) × (add a b ≡ err e) × (is_safe (a +ℤ b) ≡ false)) ⊎ (add a b ≡ ok (a +ℤ b))
unfolding add checked
add-range a b = elim (Bool-cases (is_safe (a +ℤ b))) [
  | inl h ↦ inr (rw h refl)
  | inr h ↦ inl (Error.range_error, rw h refl, h)
]

-- What is read and reported after the debit.
exhaustion-crosses :
    (deps : CreditGateDeps) (t : ℕ) (charge : ℤ) (db : Db)
    → let left = stored_balance (Code.tenant t) db in
      ((e : Error) × (exhaustion deps t charge db ≡ err e)
        × (deps.on_balance_exhausted ≡ true)
        × IsOutOfRange left charge)
      ⊎ ((es : List Event) × (exhaustion deps t charge db ≡ ok es)
          × (any is_exhausted es
              ≡ (deps.on_balance_exhausted && crosses_zero (left +ℤ charge) charge)))
unfolding exhaustion
exhaustion-crosses deps t charge db = elim (Bool-cases deps.on_balance_exhausted) [
  | inr b ↦ rw (b, exhaustion) (inr ([], refl, refl))
  | inl b ↦ elim (balance-range t db) [
    | inl (e, q, far) ↦ inl (e, rw (b, q, exhaustion) refl, b, inl far)
    | inr q ↦ elim (add-range (stored_balance (Code.tenant t) db) charge) [
      | inl (e, w, far) ↦ inl (e, rw (b, q, w, exhaustion) refl, b, inr far)
      | inr w ↦
          let left = stored_balance (Code.tenant t) db in
          let c = greater_than (left +ℤ charge) (pos 0) && (is_negative left || is_zero left) in
          inr (
            if c then Event.balance_exhausted left ∷ [] else [],
            rw (b, q, w, exhaustion) (ok_if c (Event.balance_exhausted left ∷ []) []),
            any_when c left ∙ crossing (left +ℤ charge) charge left (back left charge) ∙ rw b refl,
          )
    ]
  ]
]
  where
    back : (x y : ℤ) → x ≡ (x +ℤ y) -ℤ y
    back x y = grind int_laws

any_exhausted :
    (deps : CreditGateDeps) (es : List Event)
    → any is_exhausted (notify deps (ok es)) ≡ any is_exhausted es
any_exhausted deps [] = whens deps.on_debit_complete deps.on_spend_alert_crossed
  where
    whens :
        (a b : Bool)
        → any is_exhausted (when a Event.debit_complete ++ when b Event.spend_alert_crossed) ≡ false
    whens true true = refl
    whens true false = refl
    whens false true = refl
    whens false false = refl
any_exhausted deps (e ∷ es) = ap (λ b. is_exhausted e || b) (any_exhausted deps es)

-- What a debit after a request may come to, where `d` is what it leaves and `final` what is read later.
abbrev pub DebitOutcome : CreditGateDeps → ℕ → ℤ → Db → List Event → Db → Db → Type 0
DebitOutcome deps t charge db events d final =
    let left = stored_balance (Code.tenant t) final in
    ((d ≡ db) × (events ≡ Event.deduction_failure ∷ []))
    ⊎ (((j : ℕ)
          → stored_balance (Code.tenant j) d ≡ (
              if t == j
              then stored_balance (Code.tenant j) db -ℤ charge
              else stored_balance (Code.tenant j) db))
        × (((events ≡ Event.deduction_failure ∷ [])
              × (deps.on_balance_exhausted ≡ true)
              × IsOutOfRange left charge)
            ⊎ (any is_exhausted events
                ≡ (deps.on_balance_exhausted && crosses_zero (left +ℤ charge) charge))))

reported :
    (deps : CreditGateDeps) (i now t : ℕ) (charge : ℤ) (user : Option ℕ) (db final : Db)
    {entry : JournalEntry} {d : Db}
    → IsConsistent db
    → debit i now t charge DebitType.adapter_usage (debit_opts user) db ≡ (ok entry, d)
    → DebitOutcome deps t charge db (notify deps (exhaustion deps t charge final)) d final
reported deps i now t charge user db final {entry} {d} v h =
    let (_, moves, _) =
      debit_moves_balance i now t charge DebitType.adapter_usage (debit_opts user) db v h in
    inr (
      moves,
      elim (exhaustion-crosses deps t charge final) [
        | inl (e, q, given, far) ↦ inl (rw q refl, given, far)
        | inr (es, q, c) ↦ inr (rw q (any_exhausted deps es ∙ c))
      ],
    )

-- On consistent books and with a ledger, the debit of a positive charge either throws, changes nothing and
-- counts a failure, or lowers the tenant's balance alone by the charge. Whatever other transactions do before
-- the balance is read again, it then reports that the balance is exhausted exactly if the callback is given
-- and the balance that is read is not positive and was before the charge was taken from it; except that where
-- the callback is given and the balance that is read, or its sum with the charge, is out of the range of safe
-- integers, it may count a failure instead.
pub debit_credits-DebitOutcome :
    (i now : ℕ) (deps : CreditGateDeps) (t : ℕ) (charge : ℤ) (user : Option ℕ) (others : Db → Db)
    (db : Db)
    → IsConsistent db
    → deps.has_ledger ≡ true
    → pos 1 ≤ℤ charge
    → let (events, final) = debit_credits i now deps t charge user others db in
      (d : Db) × (final ≡ others d) × DebitOutcome deps t charge db events d final
unfolding debit_credits begin_debit end_debit
debit_credits-DebitOutcome i now deps t charge user others db v l p =
    rw (runs deps.has_ledger charge l p)
      (after (debit i now t charge DebitType.adapter_usage (debit_opts user) db) refl)
  where
    runs :
        (a : Bool) (c : ℤ) → a ≡ true → pos 1 ≤ℤ c → (not a || is_zero c || is_negative c) ≡ false
    runs a c x y = ground arith

    after :
        (y : Result JournalEntry × Db)
        → debit i now t charge DebitType.adapter_usage (debit_opts user) db ≡ y
        → let (x, d₁) = debited y in
          (d : Db) × (others d₁ ≡ others d)
          × DebitOutcome deps t charge db (end_debit deps t charge x (others d₁)) d (others d₁)
    after (ok entry, d) h = (d, refl, reported deps i now t charge user db (others d) v h)
    after (err e, d) h = (
      d,
      refl,
      inl (debit-eq-err i now t charge DebitType.adapter_usage (debit_opts user) db h, refl),
    )

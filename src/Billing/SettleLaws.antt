-- ===== src/Billing/SettleLaws.antt =====
-- What a settlement credits (src/billing/crypto/evm/settler.ts, eth-settler.ts and
-- src/billing/crypto/btc/settler.ts).
use platform_core.Base.{
  ℕ, ◌≡◌, refl, sym, ◌∙◌, ap, ◌⊎◌, inl, inr, false, ◌==◌, Option, none, some, is_some,
  if◌then◌else◌, nat_eq, Bool-cases,
}
use platform_core.Base.Int.{ℤ, pos, ◌+ℤ◌}
use mathlib.Core.Path.{subst}
use platform_core.Credits.Types.{CreditType, Code, Db, Error, Result, ok, err, JournalEntry}
use platform_core.Credits.Credit.{from_cents}
use platform_core.Credits.Ledger.{credit, has_reference_id, stored_balance}
use platform_core.Credits.Ledger.Consistency.{IsConsistent}
use platform_core.Credits.Ledger.Effects.{credit_moves_balance}
use platform_core.Billing.Charges.{
  CryptoChargeRecord, settled, get_by_deposit_address, update_status, mark_credited,
}
use platform_core.Billing.Settle.{
  PaymentEvent, Shop, Decision, unknown, nothing, pay, Settlement, credit_ref, is_underpaid, decide,
  found_charge, begin, crypto_opts, paid, finish, settle,
}

-- The balance of tenant `j` after tenant `t` got some cents.
abbrev pub with_cents : ℕ → ℕ → ℕ → Db → ℤ
with_cents t cents j books =
    if t == j
    then stored_balance (Code.tenant j) books +ℤ from_cents (pos cents)
    else stored_balance (Code.tenant j) books

-- A credit that was made.
pub finish_pay-eq-ok :
    (callback : Option Error) (i now r : ℕ) (e : PaymentEvent) (c : CryptoChargeRecord) (s : Shop)
    {x : Settlement} {s' : Shop}
    → finish callback i now e (pay r c) s ≡ (ok x, s')
    → (entry : JournalEntry) × (books : Db) × (credit i now c.tenant_id
          (from_cents (pos c.amount_usd_cents))
          CreditType.purchase
          (crypto_opts (credit_ref e.transfer))
          s.books
        ≡ (ok entry, books))
      × (x ≡ some (c.tenant_id, c.amount_usd_cents))
      × (s' ≡ record { charges = mark_credited now r s.charges; books = books })
unfolding finish
finish_pay-eq-ok callback i now r e c s {x} {s'} h =
    answered callback
      (credit i now c.tenant_id (from_cents (pos c.amount_usd_cents)) CreditType.purchase
        (crypto_opts (credit_ref e.transfer)) s.books)
      refl h
  where
    answered :
        (cb : Option Error) (y : Result JournalEntry × Db)
        → credit i now c.tenant_id
            (from_cents (pos c.amount_usd_cents))
            CreditType.purchase
            (crypto_opts (credit_ref e.transfer))
            s.books
          ≡ y
        → paid cb now r c y s ≡ (ok x, s')
        → (entry : JournalEntry) × (books : Db) × (credit i now c.tenant_id
              (from_cents (pos c.amount_usd_cents))
              CreditType.purchase
              (crypto_opts (credit_ref e.transfer))
              s.books
            ≡ (ok entry, books))
          × (x ≡ some (c.tenant_id, c.amount_usd_cents))
          × (s' ≡ record { charges = mark_credited now r s.charges; books = books })
    answered cb (err e', books) q k = cc
    answered none (ok entry, books) q k =
        (entry, books, q, cc, sym (ap (λ (y : Result Settlement × Shop). y.1) k))
    answered (some e') (ok entry, books) q k = cc

-- A decision to pay, and what it says of the charge.
abbrev pub IsDue : PaymentEvent → Db → CryptoChargeRecord → Type 0
IsDue e books c =
    (is_some c.credited_at ≡ false)
    × (has_reference_id (credit_ref e.transfer) books ≡ false)
    × (is_underpaid e.transfer e.amount_usd_cents c.amount_usd_cents ≡ false)

pub decide-pay :
    (e : PaymentEvent) (books : Db) (r r' : ℕ) (c c' : CryptoChargeRecord)
    → decide e books (r, c) ≡ pay r' c'
    → (r' ≡ r) × (c' ≡ c) × IsDue e books c
decide-pay e books r r' c c' h = elim (Bool-cases (is_some c.credited_at)) [
  | inl b ↦ absurd (refuted (rw b at h))
  | inr b ↦ elim (Bool-cases (has_reference_id (credit_ref e.transfer) books)) [
    | inl b' ↦ absurd (refuted (rw (b, b') at h))
    | inr b' ↦ elim (Bool-cases (is_underpaid e.transfer e.amount_usd_cents c.amount_usd_cents)) [
      | inl b'' ↦ absurd (refuted (rw (b, b', b'') at h))
      | inr b'' ↦ let (p, q) = same (rw (b, b', b'') at h) in (p, q, (b, b', b''))
    ]
  ]
]
  where
    refuted : nothing c.tenant_id ≡ pay r' c' → ⊥
    refuted p = cc

    same : pay r c ≡ pay r' c' → (r' ≡ r) × (c' ≡ c)
    same p = (cc, cc)

-- What a settlement comes to.
abbrev pub Settled : PaymentEvent → Shop → Settlement → Shop → Type 0
Settled e s x s' =
    ((s'.books ≡ s.books) × ((x ≡ none) ⊎ ((t : ℕ) × (x ≡ some (t, 0)))))
    ⊎ ((r : ℕ) × (c : CryptoChargeRecord) × (get_by_deposit_address e.address s.charges
          ≡ some (r, c))
        × IsDue e s.books c
        × (x ≡ some (c.tenant_id, c.amount_usd_cents))
        × ((j : ℕ)
            → stored_balance (Code.tenant j) s'.books
              ≡ with_cents c.tenant_id c.amount_usd_cents j s.books))

-- On consistent books, a settlement that returns either leaves the books as they are and reports no
-- cents, or finds a charge at the address that is not credited, for a transfer that has no entry yet and
-- whose cents are at least those of the charge, or 98 percent of them for ether and bitcoin. It then
-- reports the cents of the charge, raises the balance of the charge's tenant by them, and leaves every
-- other tenant's balance as it was.
pub settle-Settled :
    (callback : Option Error) (i now : ℕ) (e : PaymentEvent) (s : Shop) {x : Settlement} {s' : Shop}
    → IsConsistent s.books
    → settle callback i now e s ≡ (ok x, s')
    → Settled e s x s'
unfolding settle begin finish
settle-Settled callback i now e s {x} {s'} v h =
    looked (get_by_deposit_address e.address s.charges) refl h
  where
    decided :
        (r : ℕ) (c : CryptoChargeRecord) (s₁ : Shop) (d : Decision)
        → get_by_deposit_address e.address s.charges ≡ some (r, c)
        → s₁.books ≡ s.books
        → decide e s.books (r, c) ≡ d
        → finish callback i now e d s₁ ≡ (ok x, s')
        → Settled e s x s'
    decided r c s₁ unknown q b p k =
        inl (sym (ap (λ (y : Result Settlement × Shop). y.1.books) k) ∙ b, inl cc)
    decided r c s₁ (nothing t) q b p k =
        inl (sym (ap (λ (y : Result Settlement × Shop). y.1.books) k) ∙ b, inr (t, cc))
    decided r c s₁ (pay r' c') q b p k =
        let (_, e₂, due) = decide-pay e s.books r r' c c' p in
        let (entry, books, m, y, z) = finish_pay-eq-ok callback i now r' e c' s₁ k in
        let (_, moves) =
          credit_moves_balance i now c'.tenant_id (from_cents (pos c'.amount_usd_cents))
            CreditType.purchase (crypto_opts (credit_ref e.transfer)) s₁.books
            (subst IsConsistent (sym b) v) m in
        inr (
          r,
          c',
          q ∙ ap (λ (w : CryptoChargeRecord). some (r, w)) (sym e₂),
          subst (IsDue e s.books) (sym e₂) due,
          y,
          λ j.
              ap (λ (w : Shop). stored_balance (Code.tenant j) w.books) z
              ∙ moves j
              ∙ ap (with_cents c'.tenant_id c'.amount_usd_cents j) b,
        )

    looked :
        (o : Option (ℕ × CryptoChargeRecord))
        → get_by_deposit_address e.address s.charges ≡ o
        → (let (d, s₁) = found_charge e o s in finish callback i now e d s₁) ≡ (ok x, s')
        → Settled e s x s'
    looked none q k = inl (sym (ap (λ (y : Result Settlement × Shop). y.1.books) k), inl cc)
    looked (some (r, c)) q k =
        decided r c (record s { charges = update_status r settled none none s.charges })
          (decide e s.books (r, c)) q refl refl k

-- ===== src/Billing/SettleTwice.antt =====
-- Transfers to one address that are settled at once (src/billing/crypto/evm/settler.ts, eth-settler.ts and
-- src/billing/crypto/btc/settler.ts).
use platform_core.Base.{
  ℕ, ◌≡◌, refl, ◌∙◌, ap, inl, inr, ◌==◌, none, some, if◌then◌else◌, nat_eq, Bool-cases,
}
use platform_core.Base.Int.{ℤ, pos, ◌+ℤ◌}
use mathlib.Core.Path.{subst}
use platform_core.Credits.Types.{CreditType, Code, Db, Result, ok, JournalEntry}
use platform_core.Credits.Credit.{from_cents}
use platform_core.Credits.Ledger.{stored_balance, credit}
use platform_core.Credits.Ledger.Consistency.{IsConsistent}
use platform_core.Credits.Ledger.Effects.{credit_moves_balance}
use platform_core.Credits.Ledger.Reachable.{credit-IsConsistent}
use platform_core.Billing.Charges.{
  CryptoChargeRecord, settled, mark_credited, get_by_deposit_address, update_status, given,
}
use platform_core.Billing.Settle.{
  PaymentEvent, Shop, pay, credit_ref, begin, crypto_opts, paid, finish,
}
use platform_core.Billing.Keyed.{IsKeyed, get_by_deposit_address-update}
use platform_core.Billing.SettleLaws.{with_cents, IsDue}

begin-due :
    (e : PaymentEvent) (s : Shop) (r : ℕ) (c : CryptoChargeRecord)
    → get_by_deposit_address e.address s.charges ≡ some (r, c)
    → IsDue e s.books c
    → begin e s ≡ (pay r c, record s { charges = update_status r settled none none s.charges })
unfolding begin
begin-due e s r c q (b, b', b'') = rw (q, b, b', b'') refl

-- The credit of a charge for a transfer.
abbrev pub credit_for : ℕ → ℕ → PaymentEvent → CryptoChargeRecord → Db → Result JournalEntry × Db
credit_for i now e c =
    credit i now c.tenant_id (from_cents (pos c.amount_usd_cents)) CreditType.purchase
      (crypto_opts (credit_ref e.transfer))

finish-credited :
    (i now r : ℕ) (e : PaymentEvent) (c : CryptoChargeRecord) (s : Shop) {entry : JournalEntry}
    {books : Db}
    → credit_for i now e c s.books ≡ (ok entry, books)
    → finish none i now e (pay r c) s ≡ (
      ok (some (c.tenant_id, c.amount_usd_cents)),
      record { charges = mark_credited now r s.charges; books = books },
    )
unfolding finish
finish-credited i now r e c s q = ap (λ (y : Result JournalEntry × Db). paid none now r c y s) q

with_cents-again :
    (t n j : ℕ) (books books' : Db)
    → stored_balance (Code.tenant j) books' ≡ with_cents t n j books
    → with_cents t n j books' ≡ (
        if t == j
        then stored_balance (Code.tenant j) books +ℤ from_cents (pos n) +ℤ from_cents (pos n)
        else stored_balance (Code.tenant j) books)
with_cents-again t n j books books' q = elim (Bool-cases (t == j)) [
  | inl b ↦ rw b (ap (λ (z : ℤ). z +ℤ from_cents (pos n)) (rw b at q))
  | inr b ↦ rw b (rw b at q)
]

-- Two transfers to one address whose settlements both read the charge before either credits it,
-- where the charge is not credited, neither transfer has an entry or falls short, and the ledger
-- takes both credits: both settlements report the cents of the charge, and on consistent books the
-- balance of the charge's tenant rises by twice the cents of the charge.
pub finish-twice :
    (i i' now now' : ℕ) (e e' : PaymentEvent) (s : Shop) (r : ℕ) (c : CryptoChargeRecord)
    {entry entry' : JournalEntry} {b₁ b₂ : Db}
    → IsConsistent s.books
    → IsKeyed s.charges
    → e'.address ≡ e.address
    → get_by_deposit_address e.address s.charges ≡ some (r, c)
    → IsDue e s.books c
    → IsDue e' s.books c
    → credit_for i now e c s.books ≡ (ok entry, b₁)
    → credit_for i' now' e' c b₁ ≡ (ok entry', b₂)
    → let (d, s₁) = begin e s in
      let (d', s₂) = begin e' s₁ in
      let (x, s₃) = finish none i now e d s₂ in
      let (x', s₄) = finish none i' now' e' d' s₃ in
      (x ≡ ok (some (c.tenant_id, c.amount_usd_cents)))
      × (x' ≡ ok (some (c.tenant_id, c.amount_usd_cents)))
      × ((j : ℕ)
          → stored_balance (Code.tenant j) s₄.books ≡ (
              if c.tenant_id == j
              then stored_balance (Code.tenant j) s.books
                +ℤ from_cents (pos c.amount_usd_cents)
                +ℤ from_cents (pos c.amount_usd_cents)
              else stored_balance (Code.tenant j) s.books))
finish-twice i i' now now' e e' s r c {entry} {entry'} {b₁} {b₂} v u same q due due' k k' =
    let s₁ : Shop = record s { charges = update_status r settled none none s.charges } in
    let c' : CryptoChargeRecord = record c {
      status = settled;
      currency = given none c.currency;
      filled_amount = given none c.filled_amount;
    } in
    let found : get_by_deposit_address e'.address s₁.charges ≡ some (r, c') =
      ap (λ (a : ℕ). get_by_deposit_address a s₁.charges) same
      ∙ (unfold update_status in
          get_by_deposit_address-update e.address r c _ s.charges u (λ d. refl) q) in
    let s₂ : Shop = record s₁ { charges = update_status r settled none none s₁.charges } in
    let s₃ : Shop = record { charges = mark_credited now r s₂.charges; books = b₁ } in
    let amount = from_cents (pos c.amount_usd_cents) in
    let opts = crypto_opts (credit_ref e.transfer) in
    let opts' = crypto_opts (credit_ref e'.transfer) in
    let (_, once) =
      credit_moves_balance i now c.tenant_id amount CreditType.purchase opts s.books v k in
    let v₁ =
      subst IsConsistent (ap (λ (w : Result JournalEntry × Db). w.1) k)
        (credit-IsConsistent i now c.tenant_id amount CreditType.purchase opts s.books v) in
    let (_, twice) =
      credit_moves_balance i' now' c.tenant_id amount CreditType.purchase opts' b₁ v₁ k' in
    rw
      (
        begin-due e s r c q due,
        begin-due e' s₁ r c' found due',
        finish-credited i now r e c s₂ k,
        finish-credited i' now' r e' c' s₃ k',
      )
      (
        refl,
        refl,
        λ j. twice j ∙ with_cents-again c.tenant_id c.amount_usd_cents j s.books b₁ (once j),
      )

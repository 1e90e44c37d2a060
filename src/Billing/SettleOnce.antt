-- ===== src/Billing/SettleOnce.antt =====
-- Transfers to an address whose charge was credited (src/billing/crypto/evm/settler.ts, eth-settler.ts and
-- src/billing/crypto/btc/settler.ts).
use platform_core.Base.{
  ℕ, suc, ◌≡◌, refl, sym, ◌∙◌, ap, true, Option, none, some, is_some, nat_eq, arith,
}
use platform_core.Base.Dict.{update}
use platform_core.Credits.Types.{Error, ok}
use platform_core.Billing.Charges.{
  CryptoChargeRecord, settled, get_by_deposit_address, update_status, mark_credited, given,
}
use platform_core.Billing.Settle.{
  PaymentEvent, Shop, Decision, unknown, nothing, pay, Settlement, decide, found_charge, begin,
  finish, settle,
}
use platform_core.Billing.Keyed.{IsKeyed, get_by_deposit_address-update, update-IsKeyed}
use platform_core.Billing.ShopRuns.{Steps, Steps-IsMarked}
use platform_core.Billing.SettleLaws.{finish_pay-eq-ok, decide-pay}

-- The mark of a settlement that credited.
settled_charge :
    (callback : Option Error) (i now : ℕ) (e : PaymentEvent) (s : Shop) {t n : ℕ} {s' : Shop}
    → IsKeyed s.charges
    → settle callback i now e s ≡ (ok (some (t, suc n)), s')
    → (r : ℕ) × (c : CryptoChargeRecord) × (get_by_deposit_address e.address s'.charges
        ≡ some (r, c))
      × (c.credited_at ≡ some now)
      × (c.tenant_id ≡ t)
unfolding settle begin finish mark_credited update_status
settled_charge callback i now e s {t} {n} {s'} u h =
    looked (get_by_deposit_address e.address s.charges) refl h
  where
    first_of : {a b c d : ℕ} → ◌≡◌ {A = Settlement} (some (a, b)) (some (c, d)) → c ≡ a
    first_of q = cc

    read : CryptoChargeRecord → CryptoChargeRecord
    read c = record c {
      status = settled;
      currency = given none c.currency;
      filled_amount = given none c.filled_amount;
    }

    decided :
        (r : ℕ) (c : CryptoChargeRecord) (d : Decision)
        → get_by_deposit_address e.address s.charges ≡ some (r, c)
        → decide e s.books (r, c) ≡ d
        → finish callback i now e d
            (record s { charges = update_status r settled none none s.charges })
          ≡ (ok (some (t, suc n)), s')
        → (r' : ℕ) × (c' : CryptoChargeRecord) × (get_by_deposit_address e.address s'.charges
            ≡ some (r', c'))
          × (c'.credited_at ≡ some now)
          × (c'.tenant_id ≡ t)
    decided r c unknown q p k = absurd (ground arith)
    decided r c (nothing t') q p k = absurd (ground arith)
    decided r c (pay r' c') q p k =
        let (e₁, e₂, due) = decide-pay e s.books r r' c c' p in
        let (entry, books, m, y, z) =
          finish_pay-eq-ok callback i now r' e c'
            (record s { charges = update_status r settled none none s.charges }) k in
        let first = get_by_deposit_address-update e.address r c read s.charges u (λ d. refl) q in
        (
          r,
          record (read c) { credited_at = some now },
          ap (λ (w : Shop). get_by_deposit_address e.address w.charges) z
              ∙ ap
                  (λ (w : ℕ). get_by_deposit_address e.address (
                    update w (λ (d : CryptoChargeRecord). record d { credited_at = some now })
                      (update r read s.charges)))
                  e₁
              ∙ get_by_deposit_address-update e.address r (read c)
                  (λ (d : CryptoChargeRecord). record d { credited_at = some now })
                  (update r read s.charges) (update-IsKeyed r read s.charges u) (λ d. refl) first,
          refl,
          sym (ap (λ (w : CryptoChargeRecord). w.tenant_id) e₂) ∙ first_of y,
        )

    looked :
        (o : Option (ℕ × CryptoChargeRecord))
        → get_by_deposit_address e.address s.charges ≡ o
        → (let (d, s₁) = found_charge e o s in finish callback i now e d s₁)
          ≡ (ok (some (t, suc n)), s')
        → (r : ℕ) × (c : CryptoChargeRecord) × (get_by_deposit_address e.address s'.charges
            ≡ some (r, c))
          × (c.credited_at ≡ some now)
          × (c.tenant_id ≡ t)
    looked none q k = absurd (ground arith)
    looked (some (r, c)) q k = decided r c (decide e s.books (r, c)) q refl k

-- After a settlement that credited cents, whatever is done to the charges and the books then, and however
-- the halves of other settlements come between, no settlement that begins later for a transfer to the same
-- address credits any: it returns, reports the tenant and no cents, and leaves the books as they are.
pub settle-once :
    (callback : Option Error) (i now : ℕ) (e : PaymentEvent) (s : Shop) {t n : ℕ} {s' s'' : Shop}
    → IsKeyed s.charges
    → settle callback i now e s ≡ (ok (some (t, suc n)), s')
    → Steps s' s''
    → (callback' : Option Error) (i' now' : ℕ) (e' : PaymentEvent) → e'.address ≡ e.address
    → ((settle callback' i' now' e' s'').0 ≡ ok (some (t, 0)))
      × ((settle callback' i' now' e' s'').1.books ≡ s''.books)
settle-once callback i now e s {t} {n} {s'} {s''} u h later callback' i' now' e' same =
    let (r, c, q, credited_at, tenant_id) = settled_charge callback i now e s u h in
    let (r', c', q', marked, of) =
      Steps-IsMarked e.address t later (r, c, q, ap is_some credited_at, tenant_id) in
    refused r' c' (ap (λ (a : ℕ). get_by_deposit_address a s''.charges) same ∙ q') marked of
  where
    refused :
        (r : ℕ) (c : CryptoChargeRecord)
        → get_by_deposit_address e'.address s''.charges ≡ some (r, c)
        → is_some c.credited_at ≡ true
        → c.tenant_id ≡ t
        → ((settle callback' i' now' e' s'').0 ≡ ok (some (t, 0)))
          × ((settle callback' i' now' e' s'').1.books ≡ s''.books)
    refused r c q m w =
        unfold settle begin finish in rw (q, m) (ap (λ (x : ℕ). ok (some (x, 0))) w, refl)

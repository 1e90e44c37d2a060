-- ===== src/Billing/WebhookLaws.antt =====
-- A charge and the webhook of the key server (src/billing/crypto/key-server-webhook.ts).
use platform_core.Base.{
  ℕ, ◌≡◌, refl, sym, ◌∙◌, ap, true, false, Option, none, some, Bool-cases, if_ind, ◌∷◌, ◌⊎◌, inl,
  inr, nat_eq,
}
use platform_core.Base.Int.{pos}
use platform_core.Base.Dict.{lookup}
use platform_core.Credits.Types.{CreditType, Ref, Db, Error, Result, ok, err, JournalEntry}
use platform_core.Credits.Credit.{from_cents}
use platform_core.Credits.Ledger.{credit, has_reference_id, credit_input}
use platform_core.Credits.Ledger.Effects.{credit-post, credit-eq-err}
use platform_core.Credits.Ledger.Journal.{Later, Has-Later}
use platform_core.Credits.Ledger.References.{post-reference_id}
use platform_core.Billing.Charges.{CryptoChargeRecord, confirmed, mark_credited}
use platform_core.Billing.Settle.{crypto_opts}
use platform_core.Billing.Webhook.{
  KeyServerWebhookPayload, Desk, normalize_status, status_eq, dedupe_key, is_duplicate, mark_seen,
  WebhookResult, duplicate, unhandled, handled, credited, Verdict, over, seen_then, pay, progressed,
  looked_up, begin_webhook, credited_with, finish_webhook, handle_key_server_webhook,
}

books-mark_seen :
    (p : KeyServerWebhookPayload) (s : Desk) → (mark_seen (dedupe_key p) s).books ≡ s.books
unfolding mark_seen
books-mark_seen p s =
    if_ind (λ (d : Desk). d.books ≡ s.books) (is_duplicate (dedupe_key p) s) s
      (record s { seen = dedupe_key p ∷ s.seen }) (λ _. refl) (λ _. refl)

-- The credit of a charge.
abbrev credit_charge :
    ℕ → ℕ → KeyServerWebhookPayload → CryptoChargeRecord → Db → Result JournalEntry × Db
credit_charge i now p c =
    credit i now c.tenant_id (from_cents (pos c.amount_usd_cents)) CreditType.purchase
      (crypto_opts (Ref.crypto p.charge_id))

credit_charge-eq-ok :
    (i now : ℕ) (p : KeyServerWebhookPayload) (c : CryptoChargeRecord) (db : Db)
    {entry : JournalEntry} {db' : Db}
    → credit_charge i now p c db ≡ (ok entry, db')
    → (has_reference_id (Ref.crypto p.charge_id) db ≡ false)
      × (has_reference_id (Ref.crypto p.charge_id) db' ≡ true)
credit_charge-eq-ok i now p c db {entry} {db'} h =
    let amount = from_cents (pos c.amount_usd_cents) in
    let (_, q) =
      credit-post i now c.tenant_id amount CreditType.purchase
        (crypto_opts (Ref.crypto p.charge_id)) db h in
    (post-reference_id i now
        (credit_input c.tenant_id amount CreditType.purchase (crypto_opts (Ref.crypto p.charge_id)))
        db (Ref.crypto p.charge_id) refl).1
      entry db' q

credit_charge-used :
    (i now : ℕ) (p : KeyServerWebhookPayload) (c : CryptoChargeRecord) (db : Db)
    → has_reference_id (Ref.crypto p.charge_id) db ≡ true
    → (e : Error) × (credit_charge i now p c db ≡ (err e, db))
credit_charge-used i now p c db used = answered (credit_charge i now p c db) refl
  where
    answered :
        (y : Result JournalEntry × Db)
        → credit_charge i now p c db ≡ y
        → (e : Error) × (credit_charge i now p c db ≡ (err e, db))
    answered (err e, d) h = (
      e,
      h
          ∙ ap (λ (x : Db). (err e, x))
              (credit-eq-err i now c.tenant_id (from_cents (pos c.amount_usd_cents))
                CreditType.purchase (crypto_opts (Ref.crypto p.charge_id)) db h),
    )
    answered (ok entry, d) h = let (free, _) = credit_charge-eq-ok i now p c db h in cc

-- The reference of the charge is in the journal once the credit was made.
finish_webhook_pay-reference :
    (callback : Option Error) (i now : ℕ) (p : KeyServerWebhookPayload) (c : CryptoChargeRecord)
    (s : Desk) {x : WebhookResult} {s' : Desk}
    → finish_webhook callback i now p (pay c) s ≡ (ok x, s')
    → has_reference_id (Ref.crypto p.charge_id) s'.books ≡ true
unfolding finish_webhook
finish_webhook_pay-reference callback i now p c s {x} {s'} h =
    answered callback (credit_charge i now p c s.books) refl h
  where
    answered :
        (cb : Option Error) (y : Result JournalEntry × Db)
        → credit_charge i now p c s.books ≡ y
        → credited_with cb now p c y s ≡ (ok x, s')
        → has_reference_id (Ref.crypto p.charge_id) s'.books ≡ true
    answered cb (err e, books) q k = cc
    answered none (ok entry, books) q k =
        ap
          (λ (y : Result WebhookResult × Desk). has_reference_id (Ref.crypto p.charge_id) y.1.books)
          (sym k)
        ∙ ap (has_reference_id (Ref.crypto p.charge_id)) (
            books-mark_seen p
              (record s { charges = mark_credited now p.charge_id s.charges; books = books }))
        ∙ (credit_charge-eq-ok i now p c s.books q).1
    answered (some e) (ok entry, books) q k = cc

answer_of :
    (callback : Option Error) (i now : ℕ) (p : KeyServerWebhookPayload) (v : Verdict) (s : Desk)
    (r : WebhookResult) {x : WebhookResult} {s' : Desk}
    → (v ≡ over r) ⊎ (v ≡ seen_then r)
    → finish_webhook callback i now p v s ≡ (ok x, s')
    → r ≡ x
unfolding finish_webhook
answer_of callback i now p (over r') s r o h = elim o [ inl q ↦ cc | inr q ↦ cc ]
answer_of callback i now p (seen_then r') s r o h = elim o [ inl q ↦ cc | inr q ↦ cc ]
answer_of callback i now p (pay c) s r o h = elim o [ inl q ↦ cc | inr q ↦ cc ]

handle_key_server_webhook-reference :
    (callback : Option Error) (i now : ℕ) (p : KeyServerWebhookPayload) (s : Desk) {t n : ℕ}
    {s' : Desk}
    → handle_key_server_webhook callback i now p s ≡ (ok (credited t n), s')
    → has_reference_id (Ref.crypto p.charge_id) s'.books ≡ true
unfolding handle_key_server_webhook begin_webhook
handle_key_server_webhook-reference callback i now p s {t} {n} {s'} h =
    elim (Bool-cases (is_duplicate (dedupe_key p) s)) [
      | inl b ↦ absurd (
          clash duplicate (λ q. cc)
            (answer_of callback i now p (over duplicate) s duplicate (inl refl) (rw b at h)))
      | inr b ↦ looked (lookup p.charge_id s.charges) (rw b at h)
    ]
  where
    clash : (r : WebhookResult) → (r ≡ credited t n → ⊥) → r ≡ credited t n → ⊥
    clash r differs q = differs q

    looked :
        (o : Option CryptoChargeRecord)
        → (let (v, s₁) = looked_up p o s in finish_webhook callback i now p v s₁)
          ≡ (ok (credited t n), s')
        → has_reference_id (Ref.crypto p.charge_id) s'.books ≡ true
    looked none k = absurd (
        clash unhandled (λ q. cc)
          (answer_of callback i now p (over unhandled) s unhandled (inl refl) k))
    looked (some c) k = elim (Bool-cases (status_eq (normalize_status p.status) confirmed)) [
      | inr b ↦ absurd (
          clash (handled c.tenant_id) (λ q. cc)
            (answer_of callback i now p (seen_then (handled c.tenant_id)) (progressed p c s)
              (handled c.tenant_id) (inr refl) (rw b at k)))
      | inl b ↦ elim (Bool-cases (has_reference_id (Ref.crypto p.charge_id) s.books)) [
        | inl b' ↦ absurd (
            clash duplicate (λ q. cc)
              (answer_of callback i now p (seen_then duplicate) (progressed p c s) duplicate
                (inr refl) (rw (b, b') at k)))
        | inr b' ↦
            finish_webhook_pay-reference callback i now p c (progressed p c s) (rw (b, b') at k)
      ]
    ]

-- The books are as they were where the journal has the reference of the charge.
handle_key_server_webhook-used :
    (callback : Option Error) (i now : ℕ) (p : KeyServerWebhookPayload) (s : Desk)
    → has_reference_id (Ref.crypto p.charge_id) s.books ≡ true
    → (handle_key_server_webhook callback i now p s).1.books ≡ s.books
unfolding handle_key_server_webhook begin_webhook finish_webhook
handle_key_server_webhook-used callback i now p s used =
    elim (Bool-cases (is_duplicate (dedupe_key p) s)) [
      | inl b ↦ rw b refl
      | inr b ↦ rw b (looked (lookup p.charge_id s.charges))
    ]
  where
    looked :
        (o : Option CryptoChargeRecord)
        → (let (v, s₁) = looked_up p o s in finish_webhook callback i now p v s₁).1.books ≡ s.books
    looked none = refl
    looked (some c) = elim (Bool-cases (status_eq (normalize_status p.status) confirmed)) [
      | inr b ↦ rw b (books-mark_seen p (progressed p c s))
      | inl b ↦ rw (b, used) (books-mark_seen p (progressed p c s))
    ]

finish_webhook_pay-used :
    (callback : Option Error) (i now : ℕ) (p : KeyServerWebhookPayload) (c : CryptoChargeRecord)
    (s : Desk)
    → has_reference_id (Ref.crypto p.charge_id) s.books ≡ true
    → (e : Error) × (finish_webhook callback i now p (pay c) s ≡ (err e, s))
unfolding finish_webhook
finish_webhook_pay-used callback i now p c s used =
    let (e, q) = credit_charge-used i now p c s.books used in
    (e, ap (λ (y : Result JournalEntry × Db). credited_with callback now p c y s) q)

-- After a webhook that credited a charge, whatever the ledger is called for then and whatever becomes of the
-- charges and the keys that were seen: no webhook of that charge changes the books, whatever its status and
-- confirmations; and one that had decided to pay, at any time, is refused by the ledger and changes nothing.
pub webhook_credits-once :
    (callback : Option Error) (i now : ℕ) (p : KeyServerWebhookPayload) (s : Desk) {t n : ℕ}
    {s' : Desk}
    → handle_key_server_webhook callback i now p s ≡ (ok (credited t n), s')
    → (s'' : Desk) → Later s'.books s''.books
    → (callback' : Option Error) (i' now' : ℕ) (p' : KeyServerWebhookPayload)
    → p'.charge_id ≡ p.charge_id
    → ((handle_key_server_webhook callback' i' now' p' s'').1.books ≡ s''.books)
      × ((c : CryptoChargeRecord)
          → (e : Error) × (finish_webhook callback' i' now' p' (pay c) s'' ≡ (err e, s'')))
webhook_credits-once callback i now p s {t} {n} {s'} h s'' later callback' i' now' p' same =
    let used =
      ap (λ (a : ℕ). has_reference_id (Ref.crypto a) s''.books) same
      ∙ Has-Later (Ref.crypto p.charge_id) later
          (handle_key_server_webhook-reference callback i now p s h) in
    (
      handle_key_server_webhook-used callback' i' now' p' s'' used,
      λ c. finish_webhook_pay-used callback' i' now' p' c s'' used,
    )

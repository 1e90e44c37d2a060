-- ===== src/Billing/Webhook.antt =====
-- The webhook of the key server (src/billing/crypto/key-server-webhook.ts). `begin` is up to the decision,
-- `finish` is the credit and what follows. The guard against replays (src/billing/webhook-seen-repository.ts)
-- holds the keys that were seen: charge, status and confirmations.
use platform_core.Base.{
  ℕ, Bool, true, false, ◌&&◌, ◌||◌, ◌==◌, Option, none, some, List, ◌∷◌, any, if◌then◌else◌, nat_eq,
}
use platform_core.Base.Int.{pos}
use platform_core.Base.Dict.{lookup}
use Prim.Native.String.{String}
use text.Mathlib.Text.{◌==◌ as str_eq}
use platform_core.Credits.Types.{CreditType, Ref, Db, Error, Result, ok, err, JournalEntry}
use platform_core.Credits.Credit.{from_cents}
use platform_core.Credits.Ledger.{credit, has_reference_id}
use platform_core.Billing.Charges.{
  Charges, CryptoChargeRecord, CryptoChargeStatus, pending, partial, confirmed, lapsed, failed,
  state_of, update_progress, update_status, mark_credited,
}
use platform_core.Billing.Settle.{crypto_opts}

unfoldable pub normalize_status : String → CryptoChargeStatus
normalize_status raw =
    if str_eq raw "confirmed" || str_eq raw "Settled" || str_eq raw "InvoiceSettled"
    then confirmed
    else if str_eq raw "partial"
        || str_eq raw "Processing"
        || str_eq raw "InvoiceProcessing"
        || str_eq raw "InvoiceReceivedPayment"
    then partial
    else if str_eq raw "expired" || str_eq raw "Expired" || str_eq raw "InvoiceExpired"
    then lapsed
    else if str_eq raw "failed" || str_eq raw "Invalid" || str_eq raw "InvoiceInvalid"
    then failed
    else pending

-- The deprecated amount stands in for a missing one, and one confirmation is required by default.
pub record KeyServerWebhookPayload : Type 0 where
  pub charge_id : ℕ
  pub status : String
  pub amount_received_cents : Option ℕ
  pub amount_usd_cents : Option ℕ
  pub tx_hash : Option ℕ
  pub amount_received : Option ℕ
  pub confirmations : Option ℕ
  pub confirmations_required : Option ℕ

abbrev pub or_else : Option ℕ → ℕ → ℕ
or_else none d = d
or_else (some v) d = v

abbrev pub received_cents : KeyServerWebhookPayload → ℕ
received_cents p = or_else p.amount_received_cents (or_else p.amount_usd_cents 0)

abbrev pub status_eq : CryptoChargeStatus → CryptoChargeStatus → Bool
status_eq pending pending = true
status_eq partial partial = true
status_eq confirmed confirmed = true
status_eq lapsed lapsed = true
status_eq failed failed = true
status_eq _ _ = false

-- `ks:<charge>:<status>:<confirmations>`.
pub record DedupeKey : Type 0 where
  pub charge_id : ℕ
  pub status : CryptoChargeStatus
  pub confirmations : ℕ

abbrev pub same_key : DedupeKey → DedupeKey → Bool
same_key k j =
    (k.charge_id == j.charge_id)
    && status_eq k.status j.status
    && (k.confirmations == j.confirmations)

abbrev pub dedupe_key : KeyServerWebhookPayload → DedupeKey
dedupe_key p = record {
  charge_id = p.charge_id;
  status = normalize_status p.status;
  confirmations = or_else p.confirmations 0;
}

pub record Desk : Type 0 where
  pub charges : Charges
  pub books : Db
  pub seen : List DedupeKey

unfoldable pub is_duplicate : DedupeKey → Desk → Bool
is_duplicate k s = any (same_key k) s.seen

unfoldable pub mark_seen : DedupeKey → Desk → Desk
unfolding is_duplicate
mark_seen k s = if is_duplicate k s then s else record s { seen = k ∷ s.seen }

pub data WebhookResult : Type 0 where
  duplicate : WebhookResult
  unhandled : WebhookResult
  handled : ℕ → WebhookResult
  credited : ℕ → ℕ → WebhookResult

pub data Verdict : Type 0 where
  over : WebhookResult → Verdict
  seen_then : WebhookResult → Verdict
  pay : CryptoChargeRecord → Verdict

-- Both updates of the charge.
abbrev pub progressed : KeyServerWebhookPayload → CryptoChargeRecord → Desk → Desk
progressed p c s = record s {
  charges =
      update_status p.charge_id (state_of (normalize_status p.status)) c.token p.amount_received (
        update_progress p.charge_id
          (record {
            status = normalize_status p.status;
            amount_received_cents = received_cents p;
            confirmations = or_else p.confirmations 0;
            confirmations_required = or_else p.confirmations_required 1;
            tx_hash = p.tx_hash;
          })
          s.charges);
}

abbrev pub verdict : KeyServerWebhookPayload → CryptoChargeRecord → Db → Verdict
verdict p c books =
    if status_eq (normalize_status p.status) confirmed
    then if has_reference_id (Ref.crypto p.charge_id) books then seen_then duplicate else pay c
    else seen_then (handled c.tenant_id)

abbrev pub looked_up : KeyServerWebhookPayload → Option CryptoChargeRecord → Desk → Verdict × Desk
looked_up p none s = (over unhandled, s)
looked_up p (some c) s = (verdict p c s.books, progressed p c s)

unfoldable pub begin_webhook : KeyServerWebhookPayload → Desk → Verdict × Desk
begin_webhook p s =
    if is_duplicate (dedupe_key p) s
    then (over duplicate, s)
    else looked_up p (lookup p.charge_id s.charges) s

-- The credit; the mark on the charge, the callback and the key follow if it did not throw.
abbrev pub credited_with :
    Option Error
    → ℕ
    → KeyServerWebhookPayload
    → CryptoChargeRecord
    → Result JournalEntry × Db
    → Desk
    → Result WebhookResult × Desk
credited_with callback now p c (err e, books) s = (err e, record s { books = books })
credited_with none now p c (ok entry, books) s = (
  ok (credited c.tenant_id c.amount_usd_cents),
  mark_seen (dedupe_key p)
      (record s { charges = mark_credited now p.charge_id s.charges; books = books }),
)
credited_with (some e) now p c (ok entry, books) s =
    (err e, record s { charges = mark_credited now p.charge_id s.charges; books = books })

unfoldable pub finish_webhook :
    Option Error → ℕ → ℕ → KeyServerWebhookPayload → Verdict → Desk → Result WebhookResult × Desk
unfolding mark_seen
finish_webhook callback entry_id now p (over r) s = (ok r, s)
finish_webhook callback entry_id now p (seen_then r) s = (ok r, mark_seen (dedupe_key p) s)
finish_webhook callback entry_id now p (pay c) s =
    credited_with callback now p c
      (credit entry_id now c.tenant_id (from_cents (pos c.amount_usd_cents)) CreditType.purchase
        (crypto_opts (Ref.crypto p.charge_id)) s.books)
      s

unfoldable pub handle_key_server_webhook :
    Option Error → ℕ → ℕ → KeyServerWebhookPayload → Desk → Result WebhookResult × Desk
unfolding begin_webhook finish_webhook
handle_key_server_webhook callback entry_id now p s =
    let (v, s') = begin_webhook p s in finish_webhook callback entry_id now p v s'

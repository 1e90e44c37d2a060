-- ===== src/Billing/Settle.antt =====
-- The settlement of a payment to a deposit address (src/billing/crypto/evm/settler.ts, eth-settler.ts and
-- src/billing/crypto/btc/settler.ts), which differ in the reference of the transfer and in the tolerance.
-- `begin` is up to the decision, from the charge as it was read; `finish` is the credit and what follows.
use platform_core.Base.{ℕ, ◌*◌, Bool, ltb, Option, none, some, is_some, if◌then◌else◌}
use platform_core.Base.Int.{pos}
use platform_core.Credits.Types.{CreditType, Ref, Db, Error, Result, ok, err, JournalEntry}
use platform_core.Credits.Credit.{from_cents}
use platform_core.Credits.Ledger.{CreditOpts, credit, has_reference_id}
use platform_core.Billing.Charges.{
  Charges, CryptoChargeRecord, settled, get_by_deposit_address, update_status, mark_credited,
}

-- A transfer: by its chain, hash and position, in ether on a chain, or in bitcoin.
pub data Transfer : Type 0 where
  evm : ℕ → ℕ → ℕ → Transfer
  eth : ℕ → ℕ → Transfer
  btc : ℕ → Transfer

abbrev pub credit_ref : Transfer → Ref
credit_ref (evm chain tx_hash log_index) = Ref.evm chain tx_hash log_index
credit_ref (eth chain tx_hash) = Ref.eth chain tx_hash
credit_ref (btc txid) = Ref.btc txid

pub record PaymentEvent : Type 0 where
  pub transfer : Transfer
  pub address : ℕ
  pub amount_usd_cents : ℕ

-- Two percent less will do where the price is an oracle's.
abbrev pub is_underpaid : Transfer → ℕ → ℕ → Bool
is_underpaid (evm chain tx_hash log_index) paid charged = ltb paid charged
is_underpaid (eth chain tx_hash) paid charged = ltb (paid * 100) (charged * 98)
is_underpaid (btc txid) paid charged = ltb (paid * 100) (charged * 98)

pub record Shop : Type 0 where
  pub charges : Charges
  pub books : Db

pub data Decision : Type 0 where
  unknown : Decision
  nothing : ℕ → Decision
  pay : ℕ → CryptoChargeRecord → Decision

abbrev pub decide : PaymentEvent → Db → ℕ × CryptoChargeRecord → Decision
decide e books (r, c) =
    if is_some c.credited_at
    then nothing c.tenant_id
    else if has_reference_id (credit_ref e.transfer) books
    then nothing c.tenant_id
    else if is_underpaid e.transfer e.amount_usd_cents c.amount_usd_cents
    then nothing c.tenant_id
    else pay r c

abbrev pub found_charge : PaymentEvent → Option (ℕ × CryptoChargeRecord) → Shop → Decision × Shop
found_charge e none s = (unknown, s)
found_charge e (some x) s =
    (decide e s.books x, record s { charges = update_status x.0 settled none none s.charges })

unfoldable pub begin : PaymentEvent → Shop → Decision × Shop
begin e s = found_charge e (get_by_deposit_address e.address s.charges) s

-- `CryptoWebhookResult`: the tenant and the cents that were credited, none where there is no charge.
abbrev pub Settlement : Type 0
Settlement = Option (ℕ × ℕ)

abbrev pub crypto_opts : Ref → CreditOpts
crypto_opts r = record { reference_id = some r; attributed_user_id = none; expires_at = none }

-- The credit, and the mark on the charge if it did not throw. The callback that reactivates bots may
-- throw afterwards.
abbrev pub paid :
    Option Error
    → ℕ
    → ℕ
    → CryptoChargeRecord
    → Result JournalEntry × Db
    → Shop
    → Result Settlement × Shop
paid callback now r c (err e, books) s = (err e, record s { books = books })
paid none now r c (ok entry, books) s = (
  ok (some (c.tenant_id, c.amount_usd_cents)),
  record { charges = mark_credited now r s.charges; books = books },
)
paid (some e) now r c (ok entry, books) s =
    (err e, record { charges = mark_credited now r s.charges; books = books })

unfoldable pub finish :
    Option Error → ℕ → ℕ → PaymentEvent → Decision → Shop → Result Settlement × Shop
finish callback entry_id now e unknown s = (ok none, s)
finish callback entry_id now e (nothing tenant) s = (ok (some (tenant, 0)), s)
finish callback entry_id now e (pay r c) s =
    paid callback now r c
      (credit entry_id now c.tenant_id (from_cents (pos c.amount_usd_cents)) CreditType.purchase
        (crypto_opts (credit_ref e.transfer)) s.books)
      s

unfoldable pub settle : Option Error → ℕ → ℕ → PaymentEvent → Shop → Result Settlement × Shop
unfolding begin finish
settle callback entry_id now e s = let (d, s') = begin e s in finish callback entry_id now e d s'

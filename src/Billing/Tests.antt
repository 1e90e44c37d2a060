-- ===== src/Billing/Tests.antt =====
-- A shop with one charge and two transfers to its address, a webhook, and an amount of a token.
use platform_core.Base.{
  ℕ, false, ⊤, ◌≡◌, refl, none, some, [], ◌∷◌, ◌==◌, if◌then◌else◌, nat_eq, ℕ_discrete,
}
use platform_core.Base.Int.{pos, ◌+ℤ◌, ◌-ℤ◌}
use platform_core.Base.Dict.{lookup, insert_new, update}
use platform_core.Base.Loops.{for_each}
use platform_core.Credits.Types.{DebitType, Code, ref_eq, Ref-discrete, Error, Result, ok, err}
use platform_core.Credits.Credit.{from_raw, from_cents}
use platform_core.Credits.Ledger.{
  credit_type_account, credit_entry_type, seed_system_accounts, seed_account, insert_account,
  ensure_balance, resolve_account_locked, ensure_tenant_account_locked, lock_account, insert_entry,
  has_reference_id, check_lines, sort_lines, insert_line, lock_lines, stored_balance, check_balance,
  write_line, post_line, post_lines, post_tx, post, credit,
}
use platform_core.Credits.Ledger.Consistency.{IsConsistent}
use platform_core.Credits.Ledger.Reachable.{Reachable, Step, empty_db, Reachable-IsConsistent}
use platform_core.Credits.Ledger.{DebitOpts, debit}
use platform_core.Credits.Ledger.Journal.{same, after}
use platform_core.Billing.Charges.{
  expired, Charges, CryptoChargeRecord, blank_charge, get_by_deposit_address, update_status,
  mark_credited, update_progress,
}
use platform_core.Billing.Settle.{
  evm, PaymentEvent, Shop, Decision, Settlement, begin, finish, settle,
}
use platform_core.Billing.SettleLaws.{Settled, settle-Settled}
use platform_core.Billing.ShopRuns.{stay, next, updates, begins}
use platform_core.Billing.SettleOnce.{settle-once}
use platform_core.Billing.SettleTwice.{finish-twice}
use platform_core.Billing.Webhook.{
  KeyServerWebhookPayload, Desk, normalize_status, is_duplicate, mark_seen, credited, begin_webhook,
  finish_webhook, handle_key_server_webhook,
}
use platform_core.Billing.Webhook.{pay as pay_charge}
use platform_core.Billing.WebhookLaws.{webhook_credits-once}

run_billing : ⊤
unfolding credit_type_account credit_entry_type seed_system_accounts seed_account insert_account
    ensure_balance resolve_account_locked ensure_tenant_account_locked lock_account insert_entry
    has_reference_id check_lines sort_lines insert_line lock_lines stored_balance check_balance
    write_line post_line post_lines post_tx post credit lookup insert_new update for_each from_raw
    from_cents ◌+ℤ◌ ◌-ℤ◌ ref_eq Ref-discrete ℕ_discrete get_by_deposit_address update_status
    mark_credited update_progress begin finish settle normalize_status is_duplicate mark_seen
    begin_webhook finish_webhook handle_key_server_webhook
run_billing = tt

abbrev charges : Charges
charges = (3, record (blank_charge 7 500) { deposit_address = some 42 }) ∷ []

abbrev shop : Shop
shop = record { charges = charges; books = seed_system_accounts empty_db }

seeded-IsConsistent : IsConsistent (seed_system_accounts empty_db)
seeded-IsConsistent = Reachable-IsConsistent (Reachable.next Reachable.empty Step.seeds)

abbrev first_transfer : PaymentEvent
first_transfer = record { transfer = evm 1 77 0; address = 42; amount_usd_cents = 500 }

abbrev second_transfer : PaymentEvent
second_transfer = record { transfer = evm 1 78 0; address = 42; amount_usd_cents = 501 }

abbrev settled_shop : Shop
settled_shop = (settle none 1 10 first_transfer shop).1

settled_run : settle none 1 10 first_transfer shop ≡ (ok (some (7, 500)), settled_shop)
unfolding run_billing
settled_run = refl

settle-Settled_example : Settled first_transfer shop (some (7, 500)) settled_shop
settle-Settled_example =
    settle-Settled none 1 10 first_transfer shop seeded-IsConsistent settled_run

-- The charge expires, and another settlement begins.
abbrev later_shop : Shop
later_shop =
    (begin second_transfer
      (record settled_shop { charges = update_status 3 expired none none settled_shop.charges })).1

settle-once_example :
    ((settle none 2 20 second_transfer later_shop).0 ≡ ok (some (7, 0)))
    × ((settle none 2 20 second_transfer later_shop).1.books ≡ later_shop.books)
unfolding lookup
settle-once_example =
    settle-once none 1 10 first_transfer shop (refl, tt) settled_run
      (next (next stay (updates 3 expired none none)) (begins second_transfer)) none 2 20
      second_transfer refl

-- Both transfers are read before either is credited.
abbrev read_once : Decision × Shop
read_once = begin first_transfer shop

abbrev read_twice : Decision × Shop
read_twice = begin second_transfer read_once.1

abbrev done_once : Result Settlement × Shop
done_once = finish none 1 10 first_transfer read_once.0 read_twice.1

abbrev done_twice : Result Settlement × Shop
done_twice = finish none 2 20 second_transfer read_twice.0 done_once.1

abbrev charge : CryptoChargeRecord
charge = record (blank_charge 7 500) { deposit_address = some 42 }

finish-twice_example :
    (done_once.0 ≡ ok (some (7, 500)))
    × (done_twice.0 ≡ ok (some (7, 500)))
    × ((j : ℕ)
        → stored_balance (Code.tenant j) done_twice.1.books ≡ (
            if 7 == j
            then stored_balance (Code.tenant j) shop.books
              +ℤ from_cents (pos 500)
              +ℤ from_cents (pos 500)
            else stored_balance (Code.tenant j) shop.books))
unfolding run_billing
finish-twice_example =
    finish-twice 1 2 10 20 first_transfer second_transfer shop 3 charge seeded-IsConsistent
      (refl, tt) refl refl (refl, refl, refl) (refl, refl, refl) refl refl

abbrev payload : KeyServerWebhookPayload
payload = record {
  charge_id = 3;
  status = "confirmed";
  amount_received_cents = some 500;
  amount_usd_cents = none;
  tx_hash = none;
  amount_received = none;
  confirmations = some 6;
  confirmations_required = some 6;
}

abbrev later_payload : KeyServerWebhookPayload
later_payload = record payload { confirmations = some 7 }

abbrev desk : Desk
desk = record { charges = charges; books = seed_system_accounts empty_db; seen = [] }

abbrev handled_desk : Desk
handled_desk = (handle_key_server_webhook none 1 10 payload desk).1

handled_run : handle_key_server_webhook none 1 10 payload desk ≡ (ok (credited 7 500), handled_desk)
unfolding run_billing
handled_run = refl

-- The tenant spends in between, and the keys that were seen are purged.
abbrev usage_opts : DebitOpts
usage_opts = record { reference_id = none; allow_negative = false; attributed_user_id = none }

abbrev later_desk : Desk
later_desk = record handled_desk {
  books = (debit 5 15 7 (pos 200) DebitType.bot_runtime usage_opts handled_desk.books).1;
  seen = [];
}

webhook_credits-once_example :
    ((handle_key_server_webhook none 2 20 later_payload later_desk).1.books ≡ later_desk.books)
    × ((c : CryptoChargeRecord)
        → (e : Error) × (finish_webhook none 2 20 later_payload (pay_charge c) later_desk
            ≡ (err e, later_desk)))
webhook_credits-once_example =
    webhook_credits-once none 1 10 payload desk handled_run later_desk
      (after same (Step.debits 5 15 7 (pos 200) DebitType.bot_runtime usage_opts)) none 2 20
      later_payload refl

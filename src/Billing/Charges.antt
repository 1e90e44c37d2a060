-- ===== src/Billing/Charges.antt =====
-- Charges (src/billing/crypto/charge-store.ts, the table crypto_charges of src/db/schema/crypto.ts). A row
-- is under its reference id; texts are numbers, and the times of creation and update are left out.
use platform_core.Base.{
  ℕ, suc, Bool, true, false, ◌==◌, ◌&&◌, ◌||◌, leb, Option, none, some, is_some, [], ◌∷◌,
  if◌then◌else◌, nat_eq,
}
use platform_core.Base.Dict.{Dict, lookup, update, insert_new}

pub data CryptoPaymentState : Type 0 where
  new : CryptoPaymentState
  processing : CryptoPaymentState
  expired : CryptoPaymentState
  invalid : CryptoPaymentState
  settled : CryptoPaymentState

pub data CryptoChargeStatus : Type 0 where
  pending : CryptoChargeStatus
  partial : CryptoChargeStatus
  confirmed : CryptoChargeStatus
  lapsed : CryptoChargeStatus
  failed : CryptoChargeStatus

pub record CryptoChargeRecord : Type 0 where
  pub tenant_id : ℕ
  pub amount_usd_cents : ℕ
  pub status : CryptoPaymentState
  pub currency : Option ℕ
  pub filled_amount : Option ℕ
  pub credited_at : Option ℕ
  pub chain : Option ℕ
  pub token : Option ℕ
  pub deposit_address : Option ℕ
  pub derivation_index : Option ℕ
  pub callback_url : Option ℕ
  pub expected_amount : Option ℕ
  pub received_amount : Option ℕ
  pub confirmations : ℕ
  pub confirmations_required : ℕ
  pub tx_hash : Option ℕ
  pub amount_received_cents : ℕ

abbrev pub Charges : Type 0
Charges = Dict ℕ CryptoChargeRecord

pub record CryptoDepositChargeInput : Type 0 where
  pub reference_id : ℕ
  pub tenant_id : ℕ
  pub amount_usd_cents : ℕ
  pub chain : ℕ
  pub token : ℕ
  pub deposit_address : ℕ
  pub derivation_index : ℕ
  pub callback_url : Option ℕ
  pub expected_amount : Option ℕ

abbrev pub blank_charge : ℕ → ℕ → CryptoChargeRecord
blank_charge tenant_id amount_usd_cents = record {
  tenant_id = tenant_id;
  amount_usd_cents = amount_usd_cents;
  status = new;
  currency = none;
  filled_amount = none;
  credited_at = none;
  chain = none;
  token = none;
  deposit_address = none;
  derivation_index = none;
  callback_url = none;
  expected_amount = none;
  received_amount = none;
  confirmations = 0;
  confirmations_required = 1;
  tx_hash = none;
  amount_received_cents = 0;
}

-- An insert, none where the reference id is taken: the insert throws then.
abbrev pub insert_charge : ℕ → CryptoChargeRecord → Charges → Option Charges
insert_charge reference_id row charges =
    if is_some (lookup reference_id charges)
    then none
    else some (insert_new reference_id row charges)

unfoldable pub create : ℕ → ℕ → ℕ → Charges → Option Charges
create reference_id tenant_id amount_usd_cents =
    insert_charge reference_id (blank_charge tenant_id amount_usd_cents)

abbrev pub is_at : ℕ → Option ℕ → Bool
is_at v none = false
is_at v (some a) = a == v

abbrev pub has_address : ℕ → CryptoChargeRecord → Bool
has_address address row = is_at address row.deposit_address

abbrev has_index : ℕ → ℕ → CryptoChargeRecord → Bool
has_index chain index row = is_at chain row.chain && is_at index row.derivation_index

-- `getByDepositAddress`, the first row with the address and its reference id.
unfoldable pub get_by_deposit_address : ℕ → Charges → Option (ℕ × CryptoChargeRecord)
get_by_deposit_address address [] = none
get_by_deposit_address address ((r, row) ∷ charges) =
    if has_address address row then some (r, row) else get_by_deposit_address address charges

abbrev any_index : ℕ → ℕ → Charges → Bool
any_index chain index [] = false
any_index chain index ((r, row) ∷ charges) =
    has_index chain index row || any_index chain index charges

-- The deposit address, and the derivation index on a chain, are unique too (the migrations 0005 and 0017 in
-- drizzle/migrations).
unfoldable pub create_stablecoin_charge : CryptoDepositChargeInput → Charges → Option Charges
unfolding get_by_deposit_address
create_stablecoin_charge input charges =
    if is_some (get_by_deposit_address input.deposit_address charges)
    then none
    else if any_index input.chain input.derivation_index charges
    then none
    else insert_charge input.reference_id
        (record (blank_charge input.tenant_id input.amount_usd_cents) {
          chain = some input.chain;
          token = some input.token;
          deposit_address = some input.deposit_address;
          derivation_index = some input.derivation_index;
          callback_url = input.callback_url;
          expected_amount = input.expected_amount;
          received_amount = some 0;
        })
        charges

abbrev pub state_of : CryptoChargeStatus → CryptoPaymentState
state_of pending = new
state_of partial = processing
state_of confirmed = settled
state_of lapsed = expired
state_of failed = invalid

-- `mapStatus`.
unfoldable pub map_status : CryptoPaymentState → Bool → CryptoChargeStatus
map_status s true = confirmed
map_status new false = pending
map_status processing false = partial
map_status settled false = confirmed
map_status expired false = lapsed
map_status invalid false = failed

-- A column that is not given keeps its value.
abbrev pub given : Option ℕ → Option ℕ → Option ℕ
given none old = old
given (some v) old = some v

unfoldable pub update_status : ℕ → CryptoPaymentState → Option ℕ → Option ℕ → Charges → Charges
update_status reference_id status currency filled_amount =
    update reference_id (λ (c : CryptoChargeRecord). record c {
      status = status;
      currency = given currency c.currency;
      filled_amount = given filled_amount c.filled_amount;
    })

pub record CryptoChargeProgressUpdate : Type 0 where
  pub status : CryptoChargeStatus
  pub amount_received_cents : ℕ
  pub confirmations : ℕ
  pub confirmations_required : ℕ
  pub tx_hash : Option ℕ

unfoldable pub update_progress : ℕ → CryptoChargeProgressUpdate → Charges → Charges
update_progress reference_id u = update reference_id (λ (c : CryptoChargeRecord). record c {
  status = state_of u.status;
  amount_received_cents = u.amount_received_cents;
  confirmations = u.confirmations;
  confirmations_required = u.confirmations_required;
  tx_hash = given u.tx_hash c.tx_hash;
})

unfoldable pub mark_credited : ℕ → ℕ → Charges → Charges
mark_credited now reference_id =
    update reference_id (λ (c : CryptoChargeRecord). record c { credited_at = some now })

unfoldable pub is_credited : ℕ → Charges → Bool
is_credited reference_id charges = elim (lookup reference_id charges) [
  | none ↦ false
  | some c ↦ is_some c.credited_at
]

abbrev pub max_index : Charges → ℕ
max_index [] = 0
max_index ((r, row) ∷ charges) = elim row.derivation_index [
  | none ↦ max_index charges
  | some i ↦ if leb (max_index charges) (suc i) then suc i else max_index charges
]

-- `coalesce(max(derivation_index), -1) + 1`.
unfoldable pub get_next_derivation_index : Charges → ℕ
get_next_derivation_index charges = max_index charges

-- ===== src/Billing/ShopRuns.antt =====
-- What others may do to the charges and the books between settlements, and that a charge that was credited
-- stays so (src/billing/crypto/charge-store.ts, evm/settler.ts, evm/eth-settler.ts and btc/settler.ts).
use platform_core.Base.{
  ℕ, ◌≡◌, refl, ◌∙◌, ap, inl, inr, Bool, true, false, if◌then◌else◌, ◌==◌, Option, none, some,
  is_some, [], ◌∷◌, nat_eq, arith, Bool-cases,
}
use mathlib.Core.Path.{subst}
use platform_core.Base.Dict.{lookup, update, insert_new}
use platform_core.Credits.Types.{Db, Error, Result, ok, err, JournalEntry, CreditType}
use platform_core.Base.Int.{pos}
use platform_core.Credits.Credit.{from_cents}
use platform_core.Credits.Ledger.{credit}
use platform_core.Billing.Charges.{
  Charges, CryptoChargeRecord, CryptoDepositChargeInput, CryptoChargeProgressUpdate,
  CryptoPaymentState, settled, create, create_stablecoin_charge, insert_charge,
  get_by_deposit_address, has_address, is_at, update_status, update_progress, mark_credited,
}
use platform_core.Billing.Settle.{
  PaymentEvent, Shop, Decision, unknown, nothing, pay, found_charge, begin, paid, finish,
  crypto_opts, credit_ref,
}
use platform_core.Billing.Keyed.{pair_of}

-- A call on the charges, either half of a settlement, or any change of the books.
pub data Step (s : Shop) : Shop → Type 0 where
  creates :
      (r t n : ℕ) (charges : Charges)
      → create r t n s.charges ≡ some charges
      → Step s (record s { charges = charges })
  deposits :
      (input : CryptoDepositChargeInput) (charges : Charges)
      → create_stablecoin_charge input s.charges ≡ some charges
      → Step s (record s { charges = charges })
  updates :
      (r : ℕ) (status : CryptoPaymentState) (currency filled_amount : Option ℕ)
      → Step s (record s { charges = update_status r status currency filled_amount s.charges })
  progresses :
      (r : ℕ) (u : CryptoChargeProgressUpdate)
      → Step s (record s { charges = update_progress r u s.charges })
  begins : (e : PaymentEvent) → Step s (begin e s).1
  finishes :
      (callback : Option Error) (i now : ℕ) (e : PaymentEvent) (d : Decision)
      → Step s (finish callback i now e d s).1
  others : (db : Db) → Step s (record s { books = db })

pub data Steps (s : Shop) : Shop → Type 0 where
  stay : Steps s s
  next : {s' s'' : Shop} → Steps s s' → Step s' s'' → Steps s s''

-- The charge at an address is credited, and its tenant.
abbrev pub IsMarked : ℕ → ℕ → Charges → Type 0
IsMarked a t charges =
    (r : ℕ) × (c : CryptoChargeRecord) × (get_by_deposit_address a charges ≡ some (r, c))
    × (is_some c.credited_at ≡ true)
    × (c.tenant_id ≡ t)

abbrev Keeps : (CryptoChargeRecord → CryptoChargeRecord) → Type 0
Keeps f =
    (d : CryptoChargeRecord)
    → ((f d).deposit_address ≡ d.deposit_address)
      × ((f d).tenant_id ≡ d.tenant_id)
      × (is_some d.credited_at ≡ true → is_some (f d).credited_at ≡ true)

update-IsMarked :
    (a t r : ℕ) (f : CryptoChargeRecord → CryptoChargeRecord) (charges : Charges)
    → Keeps f
    → IsMarked a t charges
    → IsMarked a t (update r f charges)
unfolding get_by_deposit_address update
update-IsMarked a t r f [] keeps (k, c, q, m, w) = cc
update-IsMarked a t r f ((j, d) ∷ charges) keeps (k, c, q, m, w) =
    elim (Bool-cases (has_address a d)) [
      | inl here ↦
          let (e, g) = pair_of j k d c (rw here at q) in
          let (at_d, of_d, credited) = keeps d in
          elim (Bool-cases (r == j)) [
            | inl same ↦ rw same (
              j,
              f d,
              rw (ap (is_at a) at_d ∙ here) refl,
              credited (ap (λ (x : CryptoChargeRecord). is_some x.credited_at) g ∙ m),
              of_d ∙ ap (λ (x : CryptoChargeRecord). x.tenant_id) g ∙ w,
            )
            | inr other ↦ rw other (
              j,
              d,
              rw here refl,
              ap (λ (x : CryptoChargeRecord). is_some x.credited_at) g ∙ m,
              ap (λ (x : CryptoChargeRecord). x.tenant_id) g ∙ w,
            )
          ]
      | inr there ↦ elim (Bool-cases (r == j)) [
        | inl same ↦ rw same (k, c, rw (ap (is_at a) (keeps d).0 ∙ there) (rw there at q), m, w)
        | inr other ↦
            let (k', c', q', m', w') =
              update-IsMarked a t r f charges keeps (k, c, rw there at q, m, w) in
            rw other (k', c', rw there q', m', w')
      ]
    ]

insert_new-IsMarked :
    (a t r : ℕ) (row : CryptoChargeRecord) (charges : Charges)
    → IsMarked a t charges
    → IsMarked a t (insert_new r row charges)
unfolding get_by_deposit_address insert_new
insert_new-IsMarked a t r row [] (k, c, q, m, w) = cc
insert_new-IsMarked a t r row ((j, d) ∷ charges) (k, c, q, m, w) = elim (Bool-cases (r == j)) [
  | inl same ↦ rw same (k, c, q, m, w)
  | inr other ↦ elim (Bool-cases (has_address a d)) [
    | inl here ↦ rw other (k, c, rw here (rw here at q), m, w)
    | inr there ↦
        let (k', c', q', m', w') =
          insert_new-IsMarked a t r row charges (k, c, rw there at q, m, w) in
        rw other (k', c', rw there q', m', w')
  ]
]

insert_charge-IsMarked :
    (a t r : ℕ) (row : CryptoChargeRecord) (charges charges' : Charges)
    → insert_charge r row charges ≡ some charges'
    → IsMarked a t charges
    → IsMarked a t charges'
insert_charge-IsMarked a t r row charges charges' q m =
    elim (Bool-cases (is_some (lookup r charges))) [
      | inl taken ↦ absurd (ground arith)
      | inr free ↦
          subst (IsMarked a t) (inserted (rw free at q)) (insert_new-IsMarked a t r row charges m)
    ]
  where
    inserted :
        ◌≡◌ {A = Option Charges} (some (insert_new r row charges)) (some charges')
        → insert_new r row charges ≡ charges'
    inserted p = cc

marked :
    (now r a t : ℕ) (charges : Charges)
    → IsMarked a t charges
    → IsMarked a t (mark_credited now r charges)
unfolding mark_credited
marked now r a t charges m =
    update-IsMarked a t r (λ d. record d { credited_at = some now }) charges
      (λ d. (refl, refl, λ _. refl)) m

updated :
    (r : ℕ) (status : CryptoPaymentState) (currency filled_amount : Option ℕ) (a t : ℕ)
    (charges : Charges)
    → IsMarked a t charges
    → IsMarked a t (update_status r status currency filled_amount charges)
unfolding update_status
updated r status currency filled_amount a t charges m =
    update-IsMarked a t r _ charges (λ d. (refl, refl, λ k. k)) m

begin-IsMarked :
    (e : PaymentEvent) (a t : ℕ) (s : Shop)
    → IsMarked a t s.charges
    → IsMarked a t (begin e s).1.charges
unfolding begin
begin-IsMarked e a t s m = looked (get_by_deposit_address e.address s.charges)
  where
    looked : (o : Option (ℕ × CryptoChargeRecord)) → IsMarked a t (found_charge e o s).1.charges
    looked none = m
    looked (some x) = updated x.0 settled none none a t s.charges m

finish-IsMarked :
    (callback : Option Error) (i now : ℕ) (e : PaymentEvent) (d : Decision) (a t : ℕ) (s : Shop)
    → IsMarked a t s.charges
    → IsMarked a t (finish callback i now e d s).1.charges
unfolding finish
finish-IsMarked callback i now e unknown a t s m = m
finish-IsMarked callback i now e (nothing tenant) a t s m = m
finish-IsMarked callback i now e (pay r c) a t s m = answered callback (
    credit i now c.tenant_id (from_cents (pos c.amount_usd_cents)) CreditType.purchase
      (crypto_opts (credit_ref e.transfer)) s.books)
  where
    answered :
        (cb : Option Error) (y : Result JournalEntry × Db)
        → IsMarked a t (paid cb now r c y s).1.charges
    answered cb (err x, books) = m
    answered none (ok entry, books) = marked now r a t s.charges m
    answered (some x) (ok entry, books) = marked now r a t s.charges m

guarded :
    {A : Type 0} (b b' : Bool) (o : Option A) {x : A}
    → (if b then none else if b' then none else o) ≡ some x
    → o ≡ some x
guarded true b' o q = cc
guarded false true o q = cc
guarded false false o q = q

Step-IsMarked :
    (a t : ℕ) (s : Shop) {s' : Shop} → Step s s' → IsMarked a t s.charges → IsMarked a t s'.charges
unfolding create create_stablecoin_charge update_progress
Step-IsMarked a t s (creates r tenant n charges q) m =
    insert_charge-IsMarked a t r _ s.charges charges q m
Step-IsMarked a t s (deposits input charges q) m =
    insert_charge-IsMarked a t input.reference_id _ s.charges charges (guarded _ _ _ q) m
Step-IsMarked a t s (updates r status currency filled_amount) m =
    updated r status currency filled_amount a t s.charges m
Step-IsMarked a t s (progresses r u) m =
    update-IsMarked a t r _ s.charges (λ d. (refl, refl, λ k. k)) m
Step-IsMarked a t s (begins e) m = begin-IsMarked e a t s m
Step-IsMarked a t s (finishes callback i now e d) m = finish-IsMarked callback i now e d a t s m
Step-IsMarked a t s (others db) m = m

pub Steps-IsMarked :
    (a t : ℕ) {s s' : Shop} → Steps s s' → IsMarked a t s.charges → IsMarked a t s'.charges
Steps-IsMarked a t stay m = m
Steps-IsMarked a t (next {s'} r x) m = Step-IsMarked a t s' x (Steps-IsMarked a t r m)

-- ===== src/Billing/Keyed.antt =====
-- The charge at a deposit address under writes of the charge (src/billing/crypto/charge-store.ts).
use platform_core.Base.{
  ℕ, ◌≡◌, refl, ◌∙◌, ap, inl, inr, ◌==◌, Option, none, some, [], ◌∷◌, nat_eq, ==_iff, ==_refl,
  arith, Bool-cases, if_ind,
}
use platform_core.Base.Dict.{lookup, update, lookup-update}
use platform_core.Billing.Charges.{
  Charges, CryptoChargeRecord, get_by_deposit_address, has_address, is_at,
}

-- The reference id is the primary key.
abbrev pub IsKeyed : Charges → Type 0
IsKeyed [] = Unit {0}
IsKeyed ((r, c) ∷ charges) = (lookup r charges ≡ none) × IsKeyed charges

pub pair_of :
    (k r : ℕ) (d c : CryptoChargeRecord)
    → ◌≡◌ {A = Option (ℕ × CryptoChargeRecord)} (some (k, d)) (some (r, c))
    → (k ≡ r) × (d ≡ c)
pair_of k r d c p = (cc, cc)

found_lookup :
    (a r : ℕ) (c : CryptoChargeRecord) (charges : Charges)
    → IsKeyed charges
    → get_by_deposit_address a charges ≡ some (r, c)
    → lookup r charges ≡ some c
unfolding get_by_deposit_address lookup
found_lookup a r c [] u q = cc
found_lookup a r c ((k, d) ∷ charges) (new, u) q = elim (Bool-cases (has_address a d)) [
  | inl here ↦ let (e, f) = pair_of k r d c (rw here at q) in rw (← e, ← f, ==_refl k) refl
  | inr there ↦ ground (
    arith,
    found_lookup a r c charges u (rw there at q),
    ==_iff r k,
    ap (λ (x : ℕ). lookup x charges) {x = r} {y = k},
  )
]

-- A write to the charge of an address, by its reference id, that leaves the address.
pub get_by_deposit_address-update :
    (a r : ℕ) (c : CryptoChargeRecord) (f : CryptoChargeRecord → CryptoChargeRecord)
    (charges : Charges)
    → IsKeyed charges
    → ((d : CryptoChargeRecord) → (f d).deposit_address ≡ d.deposit_address)
    → get_by_deposit_address a charges ≡ some (r, c)
    → get_by_deposit_address a (update r f charges) ≡ some (r, f c)
unfolding get_by_deposit_address update
get_by_deposit_address-update a r c f [] u same q = cc
get_by_deposit_address-update a r c f ((k, d) ∷ charges) (new, u) same q =
    elim (Bool-cases (has_address a d)) [
      | inl here ↦
          let (e, g) = pair_of k r d c (rw here at q) in
          rw (← e, ==_refl k, ap (is_at a) (same d) ∙ here, g) refl
      | inr there ↦ elim (Bool-cases (r == k)) [
        | inl e ↦ absurd (
            ground (
              arith,
              found_lookup a r c charges u (rw there at q),
              ap (λ (x : ℕ). lookup x charges) ((==_iff r k).0 e),
            ))
        | inr e ↦
            rw (e, there) (get_by_deposit_address-update a r c f charges u same (rw there at q))
      ]
    ]

pub update-IsKeyed :
    (r : ℕ) (f : CryptoChargeRecord → CryptoChargeRecord) (charges : Charges)
    → IsKeyed charges
    → IsKeyed (update r f charges)
unfolding update
update-IsKeyed r f [] u = tt
update-IsKeyed r f ((k, c) ∷ charges) (new, u) =
    if_ind IsKeyed (r == k) ((k, f c) ∷ charges) ((k, c) ∷ update r f charges) (λ _. (new, u))
      (λ _. (ground (arith, lookup-update r k f charges), update-IsKeyed r f charges u))

-- ===== src/Base/Dict.antt =====
-- Tables keyed by a unique column, as association lists: a select by key, an insert that does
-- nothing on a conflict, an upsert, an update of the rows with a key, and a delete.
use platform_core.Base.Tests.{Eq, if◌then◌else◌, Bool-cases}
use mathlib.Core.Path.{◌≡◌, refl, ap, sym, ◌∙◌}
use mathlib.Core.Logic.{◌⊎◌, inl, inr}
use mathlib.Core.Bool.{true, false}
use mathlib.Core.Option
use mathlib.Core.Option.{Option, none, some}
use mathlib.Core.List.{List, [], ◌∷◌}
use native.Mathlib.Omega.{arith}

abbrev pub Dict {ℓ κ} : Type ℓ → Type κ → Type (ℓ ⊔ κ)
Dict K V = List (K × V)

module _ {ℓ κ} {K : Type ℓ} {V : Type κ} ⦃e : Eq K⦄ where
  -- `SELECT ... WHERE key = k`, first row.
  unfoldable pub lookup : K → Dict K V → Option V
  lookup k [] = none
  lookup k ((j, v) ∷ d) = if e.beq k j then some v else lookup k d

  -- `INSERT ... ON CONFLICT DO NOTHING`.
  unfoldable pub insert_new : K → V → Dict K V → Dict K V
  insert_new k v [] = (k, v) ∷ []
  insert_new k v ((j, w) ∷ d) = if e.beq k j then (j, w) ∷ d else (j, w) ∷ insert_new k v d

  -- `INSERT ... ON CONFLICT DO UPDATE`, and `map.set(k, v)`.
  unfoldable pub upsert : K → V → Dict K V → Dict K V
  upsert k v [] = (k, v) ∷ []
  upsert k v ((j, w) ∷ d) = if e.beq k j then (j, v) ∷ d else (j, w) ∷ upsert k v d

  -- `UPDATE ... WHERE key = k`.
  unfoldable pub update : K → (V → V) → Dict K V → Dict K V
  update k f [] = []
  update k f ((j, w) ∷ d) = if e.beq k j then (j, f w) ∷ d else (j, w) ∷ update k f d

  -- `DELETE ... WHERE key = k`.
  unfoldable pub remove : K → Dict K V → Dict K V
  remove k [] = []
  remove k ((j, w) ∷ d) = if e.beq k j then remove k d else (j, w) ∷ remove k d

  pub lookup-insert_new :
      (k j : K) (v : V) (d : Dict K V)
      → lookup j (insert_new k v d)
        ≡ (if e.beq k j then some (Option.get_or (lookup k d) v) else lookup j d)
  unfolding lookup insert_new
  lookup-insert_new k j v [] = ground (arith, e.beq_iff k j, e.beq_iff j k)
  lookup-insert_new k j v ((i, w) ∷ d) =
      ground (arith, e.beq_iff k j, e.beq_iff k i, e.beq_iff j i, lookup-insert_new k j v d)

  pub lookup-upsert :
      (k j : K) (v : V) (d : Dict K V)
      → lookup j (upsert k v d) ≡ (if e.beq k j then some v else lookup j d)
  unfolding lookup upsert
  lookup-upsert k j v [] = ground (arith, e.beq_iff k j, e.beq_iff j k)
  lookup-upsert k j v ((i, w) ∷ d) =
      ground (arith, e.beq_iff k j, e.beq_iff k i, e.beq_iff j i, lookup-upsert k j v d)

  pub lookup-update :
      (k j : K) (f : V → V) (d : Dict K V)
      → lookup j (update k f d) ≡ (if e.beq k j then Option.map f (lookup j d) else lookup j d)
  unfolding lookup update
  lookup-update k j f [] = ground arith
  lookup-update k j f ((i, w) ∷ d) =
      ground (arith, e.beq_iff k j, e.beq_iff k i, e.beq_iff j i, lookup-update k j f d)

  pub insert_new-eq_of_lookup :
      (k : K) (v : V) (d : Dict K V) {w : V} → lookup k d ≡ some w → insert_new k v d ≡ d
  unfolding lookup insert_new
  insert_new-eq_of_lookup k v [] q = cc
  insert_new-eq_of_lookup k v ((j, x) ∷ d) q = elim (Bool-cases (e.beq k j)) [
    | inl same ↦ rw same refl
    | inr other ↦
        rw other (ap (λ (y : Dict K V). (j, x) ∷ y) (insert_new-eq_of_lookup k v d (rw other at q)))
  ]

  pub lookup-remove :
      (k j : K) (d : Dict K V) → lookup j (remove k d) ≡ (if e.beq k j then none else lookup j d)
  unfolding lookup remove
  lookup-remove k j [] = ground arith
  lookup-remove k j ((i, w) ∷ d) =
      ground (arith, e.beq_iff k j, e.beq_iff k i, e.beq_iff j i, lookup-remove k j d)

  -- The same, read from a row that is found.
  pub lookup-update-eq-some :
      (k j : K) (f : V → V) (d : Dict K V) {w : V}
      → lookup j (update k f d) ≡ some w
      → (v : V) × (lookup j d ≡ some v)
        × (((e.beq k j ≡ false) × (w ≡ v)) ⊎ ((e.beq k j ≡ true) × (w ≡ f v)))
  lookup-update-eq-some k j f d {w} h = found (lookup j d) refl (sym (lookup-update k j f d) ∙ h)
    where
      found :
          (o : Option V)
          → lookup j d ≡ o
          → (if e.beq k j then Option.map f (lookup j d) else lookup j d) ≡ some w
          → (v : V) × (lookup j d ≡ some v)
            × (((e.beq k j ≡ false) × (w ≡ v)) ⊎ ((e.beq k j ≡ true) × (w ≡ f v)))
      found none q h' = absurd (ground (arith, rw q at h'))
      found (some v) q h' = elim (Bool-cases (e.beq k j)) [
        | inl b ↦ (v, q, inr (b, ground arith))
        | inr b ↦ (v, q, inl (b, ground arith))
      ]

  pub lookup-insert_new-eq-some :
      (k j : K) (v : V) (d : Dict K V) {w : V}
      → lookup k d ≡ none
      → lookup j (insert_new k v d) ≡ some w
      → ((e.beq k j ≡ true) × (w ≡ v)) ⊎ (lookup j d ≡ some w)
  lookup-insert_new-eq-some k j v d h q = ground (arith, lookup-insert_new k j v d)

  pub lookup-remove-eq-some :
      (k j : K) (d : Dict K V) {w : V} → lookup j (remove k d) ≡ some w → lookup j d ≡ some w
  lookup-remove-eq-some k j d q = ground (arith, lookup-remove k j d)

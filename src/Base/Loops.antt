-- ===== src/Base/Loops.antt =====
-- Loops over a state.
use mathlib.Core.List.{List, [], ◌∷◌}

-- `for (const x of xs) s = body(x, s)`.
unfoldable pub for_each {ℓ κ} : {A : Type ℓ} {S : Type κ} → (A → S → S) → List A → S → S
for_each body [] s = s
for_each body (x ∷ xs) s = for_each body xs (body x s)

pub for_each_inv {ℓ κ ι} :
    {A : Type ℓ} {S : Type κ} (P : S → Type ι) (body : A → S → S)
    → ((x : A) (s : S) → P s → P (body x s))
    → (xs : List A) (s : S) → P s
    → P (for_each body xs s)
unfolding for_each
for_each_inv P body keep [] s h = h
for_each_inv P body keep (x ∷ xs) s h = for_each_inv P body keep xs (body x s) (keep x s h)

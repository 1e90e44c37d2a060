-- ===== src/Gateway/Requests.antt =====
-- Sequences of requests, and how many of them a guard lets through.
use platform_core.Base.{ℕ, suc, ◌-◌, ◌≡◌, List, [], ◌∷◌, ◌==◌, leb, if◌then◌else◌, arith}

-- A request of a client, of a limiter's key or a bot instance, and the time when it is handled.
pub record Request : Type 0 where
  pub key : ℕ
  pub now : ℕ

abbrev pub requests_of : ℕ → List Request → ℕ
requests_of key [] = 0
requests_of key (r ∷ rs) = if r.key == key then suc (requests_of key rs) else requests_of key rs

abbrev pub min : ℕ → ℕ → ℕ
min a b = if leb a b then a else b

-- The next request is let through if the maximum is not reached.
pub one_more :
    (max count n p : ℕ)
    → p ≡ min n (max - suc count)
    → (if leb (suc count) max then suc p else p) ≡ min (suc n) (max - count)
one_more max count n p h = ground arith

pub first_one :
    (max n p : ℕ) → p ≡ min n (max - 1) → (if leb 1 max then suc p else p) ≡ min (suc n) max
first_one max n p h = ground arith

-- ===== src/Gateway/RateLimit/Window.antt =====
-- What a fixed window promises (src/api/middleware/rate-limit.ts).
use platform_core.Base.{
  ℕ, suc, ◌+◌, ◌-◌, ◌≡◌, ◌<◌, refl, ◌∙◌, inl, inr, Bool, true, false, ◌&&◌, Option, none, some,
  List, [], ◌∷◌, ◌==◌, ltb, leb, if◌then◌else◌, arith, All, Bool-cases, ==_iff, ==_refl, lt→ltb,
}
use mathlib.Core.Option.{get_or}
use platform_core.Base.Dict.{lookup, lookup-upsert}
use platform_core.Gateway.Requests.{Request, requests_of, min, one_more, first_one}
use platform_core.Gateway.RateLimit.{
  RateLimitEntry, Store, key_Eq, counted, increment, RateLimitConfig, default_window_ms, Verdict,
  rate_limit,
}

abbrev pub is_allowed : Verdict → Bool
is_allowed (Verdict.limited _ _) = false
is_allowed (Verdict.allowed _ _) = true

-- How many requests of a key a limiter lets through, of a sequence of requests of any keys.
unfoldable pub admissions : RateLimitConfig → ℕ → ℕ → List Request → Store → ℕ
admissions cfg scope key [] s = 0
admissions cfg scope key (r ∷ rs) s =
    let out = rate_limit cfg scope r.key r.now s in
    let rest = admissions cfg scope key rs out.1 in
    if (r.key == key) && is_allowed out.0 then suc rest else rest

abbrev pub window_of : RateLimitConfig → ℕ
window_of cfg = get_or cfg.window_ms default_window_ms

-- The row of a key after a request.
pub lookup-rate_limit :
    (cfg : RateLimitConfig) (scope key now k : ℕ) (s : Store)
    → lookup (k, scope) (rate_limit cfg scope key now s).1 ≡ (
        if key == k
        then some (counted (lookup (k, scope) s) (window_of cfg) now)
        else lookup (k, scope) s)
unfolding rate_limit increment
lookup-rate_limit cfg scope key now k s =
    lookup-upsert (key, scope) (k, scope) (counted (lookup (key, scope) s) (window_of cfg) now) s
    ∙ same
  where
    same :
        (if (key == k) && (scope == scope)
          then some (counted (lookup (key, scope) s) (window_of cfg) now)
          else lookup (k, scope) s)
        ≡ (if key == k
            then some (counted (lookup (k, scope) s) (window_of cfg) now)
            else lookup (k, scope) s)
    same = elim (Bool-cases (key == k)) [
      | inl b ↦ rw ((==_iff key k).0 b, ==_refl scope, ==_refl k) refl
      | inr b ↦ rw b refl
    ]

pub is_allowed-rate_limit :
    (cfg : RateLimitConfig) (scope key now : ℕ) (s : Store)
    → is_allowed (rate_limit cfg scope key now s).0
      ≡ leb (counted (lookup (key, scope) s) (window_of cfg) now).count cfg.max
unfolding rate_limit increment
is_allowed-rate_limit cfg scope key now s =
    test (counted (lookup (key, scope) s) (window_of cfg) now).count _ _ _
  where
    test :
        (n a b c : ℕ)
        → is_allowed (if ltb cfg.max n then Verdict.limited a c else Verdict.allowed b c)
          ≡ leb n cfg.max
    test n a b c = ground arith

-- The next count in a live window.
counted_live :
    (e : RateLimitEntry) (window now : ℕ)
    → now < e.window_start + window
    → counted (some e) window now ≡ record { count = suc e.count; window_start = e.window_start }
counted_live e window now w = rw (lt→ltb now (e.window_start + window) w) refl

-- A request of another key leaves the key's row.
lookup-other :
    (cfg : RateLimitConfig) (scope key k now : ℕ) (s : Store)
    → (k == key) ≡ false
    → lookup (key, scope) (rate_limit cfg scope k now s).1 ≡ lookup (key, scope) s
lookup-other cfg scope key k now s b = lookup-rate_limit cfg scope k now key s ∙ rw b refl

-- A request in a live window leaves the row with the next count.
lookup-live :
    (cfg : RateLimitConfig) (scope key now : ℕ) (e : RateLimitEntry) (s : Store)
    → lookup (key, scope) s ≡ some e
    → now < e.window_start + window_of cfg
    → lookup (key, scope) (rate_limit cfg scope key now s).1
      ≡ some (record { count = suc e.count; window_start = e.window_start })
lookup-live cfg scope key now e s found w =
    lookup-rate_limit cfg scope key now key s
    ∙ rw (==_refl key, found, counted_live e (window_of cfg) now w) refl

is_allowed_live :
    (cfg : RateLimitConfig) (scope key now : ℕ) (e : RateLimitEntry) (s : Store)
    → lookup (key, scope) s ≡ some e
    → now < e.window_start + window_of cfg
    → is_allowed (rate_limit cfg scope key now s).0 ≡ leb (suc e.count) cfg.max
is_allowed_live cfg scope key now e s found w =
    is_allowed-rate_limit cfg scope key now s
    ∙ rw (found, counted_live e (window_of cfg) now w) refl

-- While a key's window lasts, the limiter lets through the first requests of the key, as many as the
-- count leaves of the maximum, and no more, whatever requests of other keys come between.
pub admissions-live :
    (cfg : RateLimitConfig) (scope key : ℕ) (e : RateLimitEntry) (rs : List Request) (s : Store)
    → lookup (key, scope) s ≡ some e
    → All (λ (r : Request). r.now < e.window_start + window_of cfg) rs
    → admissions cfg scope key rs s ≡ min (requests_of key rs) (cfg.max - e.count)
unfolding admissions
admissions-live cfg scope key e [] s found within = ground arith
admissions-live cfg scope key e (r ∷ rs) s found (w, within) = elim (Bool-cases (r.key == key)) [
  | inl b ↦
      let k = (==_iff r.key key).0 b in
      rw (k, ==_refl key, is_allowed_live cfg scope key r.now e s found w)
        (one_more cfg.max e.count (requests_of key rs)
          (admissions cfg scope key rs (rate_limit cfg scope key r.now s).1)
          (admissions-live cfg scope key
            (record { count = suc e.count; window_start = e.window_start }) rs
            (rate_limit cfg scope key r.now s).1 (lookup-live cfg scope key r.now e s found w)
            within))
  | inr b ↦ rw b (
      admissions-live cfg scope key e rs (rate_limit cfg scope r.key r.now s).1
        (lookup-other cfg scope key r.key r.now s b ∙ found) within)
]

abbrev pub is_live : RateLimitConfig → ℕ → Option RateLimitEntry → Bool
is_live cfg now none = false
is_live cfg now (some e) = ltb now (e.window_start + window_of cfg)

-- A request of a key that has no window, or one that is over, opens a window. Of it and of the requests
-- that follow before the window is over, the limiter lets through the first `max` of the key and no
-- more, whatever requests of other keys come between.
pub admissions-window :
    (cfg : RateLimitConfig) (scope key now : ℕ) (rs : List Request) (s : Store)
    → is_live cfg now (lookup (key, scope) s) ≡ false
    → All (λ (r : Request). r.now < now + window_of cfg) rs
    → admissions cfg scope key (record { key = key; now = now } ∷ rs) s
      ≡ min (suc (requests_of key rs)) cfg.max
unfolding admissions
admissions-window cfg scope key now rs s over within =
    rw (==_refl key, is_allowed-rate_limit cfg scope key now s, opened (lookup (key, scope) s) over)
      (first_one cfg.max (requests_of key rs)
        (admissions cfg scope key rs (rate_limit cfg scope key now s).1)
        (admissions-live cfg scope key (record { count = 1; window_start = now }) rs
          (rate_limit cfg scope key now s).1
          (lookup-rate_limit cfg scope key now key s
            ∙ rw (==_refl key, opened (lookup (key, scope) s) over) refl)
          within))
  where
    opened :
        (o : Option RateLimitEntry)
        → is_live cfg now o ≡ false
        → counted o (window_of cfg) now ≡ record { count = 1; window_start = now }
    opened none h = refl
    opened (some e) h = rw h refl

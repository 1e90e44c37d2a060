-- ===== src/Gateway/RateLimit.antt =====
-- Fixed-window rate limits (src/api/middleware/rate-limit.ts, src/api/drizzle-rate-limit-repository.ts,
-- src/gateway/capability-rate-limit.ts). Times are milliseconds; a request reads the clock once. Keys,
-- scopes and path segments are numbers; `now - start < w` is written `now < start + w`.
use platform_core.Base.{
  ℕ, suc, ◌+◌, ◌-◌, ◌/◌, ◌≡◌, ◌↔◌, Bool, true, false, ◌&&◌, Option, none, some, List, [], ◌∷◌,
  length, filter, ◌==◌, ltb, if◌then◌else◌, Eq, nat_eq, arith,
}
use mathlib.Core.Option.{get_or}
use platform_core.Base.Dict.{Dict, lookup, upsert, remove}
pub mod Window

-- A row of `rate_limit_entries`, under its key and scope.
pub record RateLimitEntry : Type 0 where
  pub count : ℕ
  pub window_start : ℕ

abbrev pub key_eq : ℕ × ℕ → ℕ × ℕ → Bool
key_eq (a, b) (c, d) = (a == c) && (b == d)

pub key_eq_iff : (a b : ℕ × ℕ) → (key_eq a b ≡ true) ↔ (a ≡ b)
key_eq_iff (a, b) (c, d) = ground arith

instance abbrev pub key_Eq : Eq (ℕ × ℕ)
key_Eq = record { beq = key_eq; beq_iff = key_eq_iff }

abbrev pub Store : Type 0
Store = Dict (ℕ × ℕ) RateLimitEntry

-- The row that an increment leaves.
abbrev pub counted : Option RateLimitEntry → ℕ → ℕ → RateLimitEntry
counted none window_ms now = record { count = 1; window_start = now }
counted (some e) window_ms now =
    if ltb now (e.window_start + window_ms)
    then record { count = suc e.count; window_start = e.window_start }
    else record { count = 1; window_start = now }

unfoldable pub increment : ℕ × ℕ → ℕ → ℕ → Store → RateLimitEntry × Store
increment key window_ms now s =
    let entry = counted (lookup key s) window_ms now in (entry, upsert key entry s)

unfoldable pub get : ℕ × ℕ → Store → Option RateLimitEntry
get key s = lookup key s

-- The rows that the purge keeps: `window_start < now - window_ms` is deleted.
unfoldable pub purge_stale : ℕ → ℕ → Store → ℕ × Store
purge_stale window_ms now s =
    let kept = filter (λ (r : (ℕ × ℕ) × RateLimitEntry). is_kept r.1) s in
    (length s - length kept, kept)
  where
    is_kept : RateLimitEntry → Bool
    is_kept e = if ltb (e.window_start + window_ms) now then false else true

pub record RateLimitConfig : Type 0 where
  pub max : ℕ
  pub window_ms : Option ℕ

abbrev pub default_window_ms : ℕ
default_window_ms = 60_000

-- What the middleware answers: 429, or the next handler runs. Both carry `X-RateLimit-Remaining` and
-- `X-RateLimit-Reset`, in seconds.
pub data Verdict : Type 0 where
  limited : (retry_after reset_at : ℕ) → Verdict
  allowed : (remaining reset_at : ℕ) → Verdict

-- `Math.ceil(ms / 1000)`.
abbrev pub seconds : ℕ → ℕ
seconds ms = (ms + 999) / 1000

unfoldable pub rate_limit : RateLimitConfig → ℕ → ℕ → ℕ → Store → Verdict × Store
rate_limit cfg scope key now s =
    let window_ms = get_or cfg.window_ms default_window_ms in
    let (entry, s') = increment (key, scope) window_ms now s in
    let reset_at = seconds (entry.window_start + window_ms) in
    (
      if ltb cfg.max entry.count
          then Verdict.limited (seconds ((entry.window_start + window_ms) - now)) reset_at
          else Verdict.allowed (cfg.max - entry.count) reset_at,
      s',
    )

-- Methods are `GET`, `POST` and others, upper case; a path is its list of characters.
abbrev pub starts_with : List ℕ → List ℕ → Bool
starts_with path [] = true
starts_with [] (c ∷ cs) = false
starts_with (p ∷ ps) (c ∷ cs) = (p == c) && starts_with ps cs

pub record RateLimitRule : Type 0 where
  pub method : Option ℕ
  pub path_prefix : List ℕ
  pub config : RateLimitConfig
  pub scope : ℕ

-- `rule.method === "*" || rule.method === method`, and the prefix. The method `*` is `none`.
abbrev pub rule_matches : ℕ → List ℕ → RateLimitRule → Bool
rule_matches method path rule = method_matches rule.method && starts_with path rule.path_prefix
  where
    method_matches : Option ℕ → Bool
    method_matches none = true
    method_matches (some m) = m == method

abbrev pub default_scope : ℕ
default_scope = 0

-- The loop over the rules, which breaks at the first match.
unfoldable pub resolve_rule :
    List RateLimitRule → RateLimitConfig → ℕ → List ℕ → RateLimitConfig × ℕ
resolve_rule [] default_config method path = (default_config, default_scope)
resolve_rule (rule ∷ rules) default_config method path =
    let rest = resolve_rule rules default_config method path in
    if rule_matches method path rule then (rule.config, rule.scope) else rest

unfoldable pub rate_limit_by_route :
    List RateLimitRule → RateLimitConfig → ℕ → List ℕ → ℕ → ℕ → Store → Verdict × Store
rate_limit_by_route rules default_config method path key now s =
    let (cfg, scope) = resolve_rule rules default_config method path in
    rate_limit cfg scope key now s

pub data Category : Type 0 where
  llm image_gen audio_speech telephony : Category

pub record CapabilityRateLimitConfig : Type 0 where
  pub llm : ℕ
  pub image_gen : ℕ
  pub audio_speech : ℕ
  pub telephony : ℕ

abbrev pub limit_of : CapabilityRateLimitConfig → Category → ℕ
limit_of c Category.llm = c.llm
limit_of c Category.image_gen = c.image_gen
limit_of c Category.audio_speech = c.audio_speech
limit_of c Category.telephony = c.telephony

-- The scopes `cap:<category>`.
abbrev pub scope_of : Category → ℕ
scope_of Category.llm = 1
scope_of Category.image_gen = 2
scope_of Category.audio_speech = 3
scope_of Category.telephony = 4

-- The middleware for a path whose category is resolved; none passes with no count.
unfoldable pub capability_rate_limit :
    CapabilityRateLimitConfig → Option Category → ℕ → ℕ → Store → Option Verdict × Store
capability_rate_limit limits none tenant now s = (none, s)
capability_rate_limit limits (some category) tenant now s =
    let (v, s') =
      rate_limit (record { max = limit_of limits category; window_ms = none }) (scope_of category)
        tenant now s in
    (some v, s')

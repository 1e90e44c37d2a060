-- ===== src/Billing/Tokens.antt =====
-- Amounts of a stablecoin (src/billing/crypto/evm/config.ts): cents and the token's raw units, both as
-- whole numbers that are not negative.
use platform_core.Base.{ℕ, zero, suc, ◌*◌, ◌/◌}

abbrev pub pow_10 : ℕ → ℕ
pow_10 zero = 1
pow_10 (suc n) = 10 * pow_10 n

unfoldable pub token_amount_from_cents : ℕ → ℕ → ℕ
token_amount_from_cents cents decimals = cents * pow_10 decimals / 100

unfoldable pub cents_from_token_amount : ℕ → ℕ → ℕ
cents_from_token_amount raw_amount decimals = raw_amount * 100 / pow_10 decimals

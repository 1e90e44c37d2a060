-- ===== src/Billing/TokenLaws.antt =====
-- From cents to a token's raw units and back (src/billing/crypto/evm/config.ts).

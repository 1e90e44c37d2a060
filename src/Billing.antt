-- ===== src/Billing.antt =====
-- Payments in crypto currencies (src/billing/crypto).
pub mod Tokens
pub mod Charges
pub mod Settle
pub mod Webhook
pub mod TokenLaws
pub mod Keyed
pub mod SettleLaws
pub mod ShopRuns
pub mod SettleOnce
pub mod SettleTwice
pub mod WebhookLaws
mod Tests

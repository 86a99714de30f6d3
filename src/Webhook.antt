-- ===== src/Webhook.antt =====
-- The intake of GitHub webhooks: app/github/webhook.py and app/github/schemas.py.
pub mod Command
pub mod Delivery
pub mod Event
pub mod Gate
pub mod Installation

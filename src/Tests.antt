-- ===== src/Tests.antt =====
-- Runs of the model on concrete inputs.
mod Sync
mod Intents
mod Routes
mod Patterns
mod Engines
mod Dispatches
mod Lanes
mod Verifications
mod Merges
mod Promotions
mod Fanouts
mod Retentions

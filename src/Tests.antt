-- ===== src/Tests.antt =====
-- The theorems at concrete inputs, and runs of the definitions.
mod Sample
mod HashDb
mod Quarantine
mod Scans
mod Prompts
mod RateLimit
mod Billing
mod Accounts
mod Watching
mod Server
mod Logins
mod Settings
mod Live
mod AtOnce

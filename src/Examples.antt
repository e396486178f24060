-- ===== src/Examples.antt =====
-- Runs of the definitions on small inputs, and the theorems at inputs that meet their conditions.
mod Boxes
mod Circuit
mod Copies
mod Counters
mod Limits
mod Mailboxes
mod Sessions
mod Listings
mod Threads
mod Webhooks
mod Subscriptions
mod Relays
mod Access
mod Logins
mod Dispatches
mod Searches

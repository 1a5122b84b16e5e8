-- ===== src/Tests.antt =====
-- The theorems at concrete inputs.
mod Packets
mod Router
mod Tables
mod Texts
mod Links
mod Tries
mod Brokers
mod Accounts
mod Pings
mod Exchanges
mod Relays
mod Queues
mod Transfers

-- ===== src/Erc7710.antt =====
-- src/erc7710/index.ts: mandates as ERC-7710 delegations, and the gate over their redemptions.
pub mod Hex
pub mod Words
pub mod Terms
pub mod Fields
pub mod Delegation
pub mod Redemption
pub mod Bounded
pub mod Caveats
pub mod Bridge
pub mod Authority
pub mod Mandates
pub mod RoundTrip
pub mod Amounts
pub mod Targets
mod Tests

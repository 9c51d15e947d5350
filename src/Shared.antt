-- ===== src/Shared.antt =====
-- packages/shared/src: the contracts that the api and the web share.
pub mod Auth
pub mod Events
pub mod Values
pub mod Maps
pub mod Fetch
pub mod Sorting

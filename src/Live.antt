-- ===== src/Live.antt =====
-- The fetcher tables of element.c hold raw pointers to the fetches of fetch.c: the children follow which
-- fetches these are through every operation of the daemon.
pub mod Peers
pub mod Fetches
pub mod Elements
pub mod Additions
pub mod Routes
pub mod Addresses
pub mod RouteAddresses
pub mod Methods
pub mod Messages
pub mod Reach
pub mod Departure

-- ===== src/Sources.antt =====
-- internal/sources: the adapters of the Sources port. What a fetch makes of the answers takes the call
-- as a parameter; Web has the requests, where sending one and decoding its JSON are parameters.
pub mod Tally
pub mod Hn
pub mod Lobsters
pub mod Reddit
pub mod Registry
pub mod Web

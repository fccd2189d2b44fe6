-- ===== src/Delivery.antt =====
-- internal/delivery: how a finding presents itself (labels.go, discord.go), and the gap between posts.
pub mod Labels
pub mod Pace
pub mod Describe
pub mod Deliver
pub mod Registry

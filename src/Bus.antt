-- ===== src/Bus.antt =====
-- src/bus: names, replies, match rules, activations and policies.
pub mod Name
pub mod Peer
pub mod Reply
pub mod Match
pub mod Activation
pub mod Policy
pub mod Driver

-- ===== src/Dbus.antt =====
-- src/dbus: the protocol layer.
pub mod Protocol
pub mod Address
pub mod Sasl
pub mod Queue

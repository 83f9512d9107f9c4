-- ===== src/Bus/Driver.antt =====
-- src/bus/driver.c: the driver of the bus, the peer named org.freedesktop.DBus.
pub mod Names
pub mod Codes
pub mod Dispatch
pub mod Broadcast

-- ===== src/Dbus/Sasl.antt =====
-- src/dbus/sasl.c: the SASL exchange, as the server's and the client's state machines. A dispatch
-- takes one line, without its \r\n, and gives the new state with an output or an error.
pub mod Tests
pub mod Line
pub mod Server
pub mod Client
pub mod Access
pub mod Descriptors
pub mod Outcomes
pub mod Exchange

-- ===== src/Logs.antt =====
-- crates/nxr-core/src/log_broker.rs: the process logs that the daemon keeps. `Base64` is the encoding of
-- log bytes, `Broker` the streams.
pub mod Base64
pub mod RoundTrip
pub mod Broker
pub mod Tail
pub mod Capacity
pub mod Calls
pub mod Listening
pub mod Delivery
pub mod Follow
mod Tests

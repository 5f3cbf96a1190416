-- ===== src/Channel.antt =====
-- The native channel's reader and writer, `RusshChannelReader` and `RusshChannelWriter` of
-- crates/rssh-ssh/src/russh_client.rs.
pub mod Messages
pub mod Reader
pub mod Stream
pub mod End
pub mod Lifecycle
pub mod Writer
pub mod Contract
pub mod Protocol
pub mod Wire

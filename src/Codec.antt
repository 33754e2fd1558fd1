-- ===== src/Codec.antt =====
-- src/ipc_message_codec.cpp: the byte format of a message between processes. Integers are stored in
-- the host's byte order, which is little-endian on the supported targets (x86-64 and RK3568).
pub mod Bytes
pub mod Value
pub mod Reader
pub mod Encoder
pub mod Decoder
pub mod RoundTrip
pub mod Canonical

-- ===== src/Recombiner.antt =====
-- pub/pkt_recombiner.cpp and the recognizers of messages: a stream of bytes is cut into messages.
pub mod Memory
pub mod Buffer
pub mod Recognizers
pub mod Process
pub mod Held
pub mod Frames
pub mod Turns
pub mod Stream
pub mod Arrival
pub mod Endless
pub mod Udp

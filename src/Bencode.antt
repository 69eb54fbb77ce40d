-- ===== src/Bencode.antt =====
-- pub/inc/bencode_impl.hpp, pub/bencode.cpp: values and their text. A text is a list of bytes.
pub mod Entry
pub mod Lexical
pub mod Encode
pub mod Decode
pub mod Printed
pub mod Dictionary
pub mod RoundTrip
pub mod Ends

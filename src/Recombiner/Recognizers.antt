-- ===== src/Recombiner/Recognizers.antt =====
-- rcs/src/frame/distri_download_msg_recognizer.cpp, rcs/src/protocol/bt/bt_msg_recognizer.cpp and
-- rcs/src/protocol/pps/pps_msg_recognizer.cpp: does a message begin here, and how long is it?
-- `buf` is the memory from the given address on, `len` the length that is told. A read past the memory
-- is `none`.
use resource_cache.Common.{
  ℕ, ◌+◌, ◌%◌, ◌^◌, Bool, true, false, not, ◌||◌, Option, none, some, List, [], ◌∷◌, drop, ltb,
  ◌==◌, if◌then◌else◌, ◌>>=◌,
}
use resource_cache.Io.{read_uint32, read_uint16, read_int16_be}

-- The result of `RecognizeMsg`, with `recognized_len`.
pub data Recognized : Type 0 where
  no_message : Recognized
  message : ℕ → Recognized

abbrev pub Recognizer : Type 0
Recognizer = List ℕ → ℕ → Option Recognized

-- `DISTRIBUTED_DOWNLOAD_MAGIC_NUMBER`.
abbrev pub magic : ℕ
magic = 0xffffc593

unfoldable pub recognize_distri_download : Recognizer
recognize_distri_download buf len =
    let looked = (do
      (magic_number, tmp) ← read_uint32 buf
      let measured = (do
        (pkt_len, tmp') ← read_uint16 tmp
        some (if ltb len (pkt_len + 4 + 2) then no_message else message (pkt_len + 4 + 2)))
      if not (magic == magic_number) then some no_message else measured) in
    if ltb len (4 + 2 + 1) then some no_message else looked

-- `BT_HANDSHAKE_PROTOCOL_STR`, of 19 letters.
abbrev pub protocol_str : List ℕ
protocol_str =
    b'B' ∷ b'i' ∷ b't' ∷ b'T' ∷ b'o' ∷ b'r' ∷ b'r' ∷ b'e' ∷ b'n' ∷ b't' ∷ b' ' ∷ b'p' ∷ b'r' ∷ b'o'
    ∷ b't' ∷ b'o' ∷ b'c' ∷ b'o' ∷ b'l' ∷ []

-- `strncmp` with a text of as many letters, none of them 0: it looks no further than the first
-- difference.
abbrev pub starts_with : List ℕ → List ℕ → Option Bool
starts_with [] buf = some true
starts_with (c ∷ cs) [] = none
starts_with (c ∷ cs) (b ∷ buf) = if c == b then starts_with cs buf else some false

abbrev pub first_byte : List ℕ → Option (ℕ × List ℕ)
first_byte [] = none
first_byte (b ∷ buf) = some (b, buf)

-- `BT_HANDSHAKE_PKT_LEN`.
abbrev pub handshake_len : ℕ
handshake_len = 1 + 19 + 8 + 20 + 20

unfoldable pub recognize_bt_handshake : Recognizer
recognize_bt_handshake buf len =
    let looked = (do
      (b, rest) ← first_byte buf
      let compared = (do
        same ← starts_with protocol_str rest
        some (if same then message handshake_len else no_message))
      if not (b == 19) then some no_message else compared) in
    if ltb len handshake_len then some no_message else looked

unfoldable pub recognize_bt_common : Recognizer
recognize_bt_common buf len = do
  (length_prefix, rest) ← read_uint32 buf
  some (
      if ltb len ((length_prefix + 4) % (2 ^ 32))
      then no_message
      else message ((length_prefix + 4) % (2 ^ 32)))

-- `PPS_MSG_HANDSHAKE`.
abbrev pub pps_handshake : ℕ
pps_handshake = 0x8200

unfoldable pub recognize_pps_common : Recognizer
recognize_pps_common buf len = do
  (length_prefix, rest) ← read_int16_be buf
  let typed = (do
    (type, rest') ← read_uint32 (drop 1 rest)
    some (
        if not (type == pps_handshake) || length_prefix == len
        then message length_prefix
        else message (length_prefix + 4)))
  if ltb (len % (2 ^ 16)) length_prefix then some no_message else typed

-- The recognizers of a connection, in the order in which they are registered.
abbrev pub bt_recognizers : List Recognizer
bt_recognizers = recognize_distri_download ∷ recognize_bt_handshake ∷ recognize_bt_common ∷ []

abbrev pub pps_recognizers : List Recognizer
pps_recognizers = recognize_distri_download ∷ recognize_pps_common ∷ []

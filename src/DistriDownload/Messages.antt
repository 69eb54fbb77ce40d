-- ===== src/DistriDownload/Messages.antt =====
-- rcs/src/frame/distri_download_mgr.cpp: the messages between a sponsor and its proxies. The length that
-- they state is that of the type and the piece.
use resource_cache.Common.{
  ap, ℕ, ◌+◌, ◌^◌, ◌≤◌, ◌<◌, ◌≡◌, Option, some, List, ◌++◌, drop, leb, ◌>>=◌, ◌>>◌, bc_assert,
  arith,
}
use resource_cache.Io.{
  read_uint8, read_uint16, read_uint32, write_uint8, write_uint16, write_uint32,
}
use resource_cache.Recombiner.Recognizers.{magic, message, recognize_distri_download}

-- `DistriDownloadMsgType`.
abbrev pub assign_piece : ℕ
assign_piece = 1

abbrev pub accept_piece : ℕ
accept_piece = 2

abbrev pub reject_piece : ℕ
reject_piece = 3

-- `ConstructAssignPieceMsg`, `ConstructAcceptPieceMsg` and `ConstructRejectPieceMsg`, which differ in the
-- type.
unfoldable pub construct_msg : ℕ → ℕ → List ℕ
construct_msg msg_type piece =
    write_uint32 magic ++ (write_uint16 5 ++ (write_uint8 msg_type ++ write_uint32 piece))

-- `GetDistriDownloadMsgType`, for the memory from the message on.
unfoldable pub get_msg_type : List ℕ → ℕ → Option ℕ
get_msg_type buf len = do
  bc_assert (leb (4 + 2 + 1) len)
  (msg_type, rest) ← read_uint8 (drop (4 + 2) buf)
  some msg_type

-- `ParseDistriDownloadMsg`.
unfoldable pub parse_msg : List ℕ → Option ℕ
parse_msg buf = do (piece, rest) ← read_uint32 (drop (4 + 2 + 1) buf); some piece

-- A message that was constructed is recognized wherever at least its 11 bytes have come, with that
-- length and whatever follows it, and its type and its piece are read back.
pub construct_msg_lem :
    (msg_type piece len : ℕ) (rest : List ℕ)
    → msg_type < 2 ^ 8
    → piece < 2 ^ 32
    → 11 ≤ len
    → (recognize_distri_download (construct_msg msg_type piece ++ rest) len ≡ some (message 11))
      × (get_msg_type (construct_msg msg_type piece ++ rest) 11 ≡ some msg_type)
      × (parse_msg (construct_msg msg_type piece ++ rest) ≡ some piece)
unfolding recognize_distri_download construct_msg get_msg_type parse_msg read_uint8 read_uint16
    read_uint32 write_uint8 write_uint16 write_uint32
construct_msg_lem msg_type piece len rest h h' l =
    (ground arith, ap some (omega arith), ap some (omega arith))

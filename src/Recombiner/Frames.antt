-- ===== src/Recombiner/Frames.antt =====
-- rcs/src/protocol/bt/bt_msg_recognizer.cpp: the messages of a BT connection in front of other bytes.
use resource_cache.Common.{
  refl, ℕ, ◌+◌, ◌^◌, ◌≤◌, ◌<◌, ◌≡◌, ap, sym, some, List, ◌∷◌, ◌++◌, length, arith, length-append,
  append_assoc, append_front, dec_lt,
}
use resource_cache.Common.Results.{ok}
use resource_cache.Io.{
  read_uint32, write_uint32, write_loop, read_uint32_first, read_uint32-write_uint32,
  length-write_uint32,
}
use resource_cache.Recombiner.Recognizers.{
  no_message, message, magic, protocol_str, handshake_len, recognize_distri_download,
  recognize_bt_handshake, recognize_bt_common, bt_recognizers,
}
use resource_cache.Recombiner.Process.{nothing, found, recognize_msg}

-- A handshake, with what follows the name of the protocol, or any other message, after its length.
pub data Frame : Type 0 where
  handshake : List ℕ → Frame
  common : List ℕ → Frame

unfoldable pub frame_bytes : Frame → List ℕ
frame_bytes (handshake rest) = 19 ∷ (protocol_str ++ rest)
frame_bytes (common payload) = write_uint32 (length payload) ++ payload

unfoldable pub IsFrame : Frame → Type 0
IsFrame (handshake rest) = length rest ≡ 48
IsFrame (common payload) = length payload < 2 ^ 24

abbrev pub frame_entry : Frame → ℕ
frame_entry (handshake rest) = 1
frame_entry (common payload) = 2

distri_no :
    (buf : List ℕ) (len v : ℕ) (rest : List ℕ)
    → read_uint32 buf ≡ some (v, rest)
    → v < magic
    → recognize_distri_download buf len ≡ some no_message
unfolding recognize_distri_download
distri_no buf len v rest e h = rw e (ground arith)

handshake_short :
    (buf : List ℕ) (len : ℕ)
    → len < handshake_len
    → recognize_bt_handshake buf len ≡ some no_message
unfolding recognize_bt_handshake
handshake_short buf len h = ground arith

handshake_other :
    (b : ℕ) (buf : List ℕ) (len : ℕ)
    → b < 19
    → recognize_bt_handshake (b ∷ buf) len ≡ some no_message
unfolding recognize_bt_handshake
handshake_other b buf len h = ground arith

handshake_yes :
    (rest : List ℕ) (len : ℕ)
    → handshake_len ≤ len
    → recognize_bt_handshake (19 ∷ (protocol_str ++ rest)) len ≡ some (message handshake_len)
unfolding recognize_bt_handshake
handshake_yes rest len h = ground arith

common_yes :
    (buf : List ℕ) (len v : ℕ) (rest : List ℕ)
    → read_uint32 buf ≡ some (v, rest)
    → v + 4 < 2 ^ 32
    → v + 4 ≤ len
    → recognize_bt_common buf len ≡ some (message (v + 4))
unfolding recognize_bt_common
common_yes buf len v rest e h l = rw e (ground arith)

common_no :
    (buf : List ℕ) (len v : ℕ) (rest : List ℕ)
    → read_uint32 buf ≡ some (v, rest)
    → v + 4 < 2 ^ 32
    → len < v + 4
    → recognize_bt_common buf len ≡ some no_message
unfolding recognize_bt_common
common_no buf len v rest e h l = rw e (ground arith)

write_uint32_small : (n : ℕ) → n < 2 ^ 24 → (rest : List ℕ) × (write_uint32 n ≡ 0 ∷ rest)
unfolding write_uint32
write_uint32_small n h = (write_loop 3 n, ap (λ b. b ∷ write_loop 3 n) (omega arith))

handshake_no :
    (n : ℕ) (rest : List ℕ) (len : ℕ)
    → n < 2 ^ 24
    → recognize_bt_handshake (write_uint32 n ++ rest) len ≡ some no_message
handshake_no n rest len h =
    let (low, e) = write_uint32_small n h in
    rw e (handshake_other 0 (low ++ rest) len (omega arith))

recognize_no :
    (buf : List ℕ) (len v : ℕ) (rest : List ℕ)
    → read_uint32 buf ≡ some (v, rest)
    → v < 2 ^ 31
    → recognize_bt_handshake buf len ≡ some no_message
    → len < v + 4
    → recognize_msg bt_recognizers 0 buf len ≡ ok nothing
unfolding recognize_msg
recognize_no buf len v rest e h h' l =
    rw (distri_no buf len v rest e (omega arith), h', common_no buf len v rest e (omega arith) l)
      refl

recognize_common :
    (buf : List ℕ) (len v : ℕ) (rest : List ℕ)
    → read_uint32 buf ≡ some (v, rest)
    → v < 2 ^ 31
    → recognize_bt_handshake buf len ≡ some no_message
    → v + 4 ≤ len
    → recognize_msg bt_recognizers 0 buf len ≡ ok (found 2 (v + 4))
unfolding recognize_msg
recognize_common buf len v rest e h h' l =
    rw (distri_no buf len v rest e (omega arith), h', common_yes buf len v rest e (omega arith) l)
      refl

pub length-frame_common :
    (payload : List ℕ) → length (write_uint32 (length payload) ++ payload) ≡ length payload + 4
length-frame_common payload = omega (
  arith,
  length-append (write_uint32 (length payload)) payload,
  length-write_uint32 (length payload),
)

-- A message that is there as a whole is found, with its length.
pub recognize_whole :
    (f : Frame) (m : List ℕ) (len : ℕ)
    → IsFrame f
    → length (frame_bytes f) ≤ len
    → recognize_msg bt_recognizers 0 (frame_bytes f ++ m) len
      ≡ ok (found (frame_entry f) (length (frame_bytes f)))
unfolding frame_bytes IsFrame recognize_msg
recognize_whole (handshake rest) m len h l =
    let (v, after, e, low, high) =
      read_uint32_first 19 (protocol_str ++ (rest ++ m)) (omega arith) in
    rw
      (
        distri_no (19 ∷ (protocol_str ++ (rest ++ m))) len v after e (omega arith),
        handshake_yes (rest ++ m) len (omega (arith, h)),
      )
      (ap (λ n. ok (found 1 n)) (omega (arith, h)))
recognize_whole (common payload) m len h l =
    let n = length-frame_common payload in
    rw (append_assoc (write_uint32 (length payload)) payload m, n)
      (recognize_common (write_uint32 (length payload) ++ (payload ++ m)) len (length payload) _
        (read_uint32-write_uint32 (length payload) (payload ++ m) (omega (arith, h)))
        (omega (arith, h)) (handshake_no (length payload) (payload ++ m) len h)
        (omega (arith, n, l)))

recognize_part_common :
    (x : ℕ) (xs z m : List ℕ) (n : ℕ) (payload : List ℕ)
    → n < 2 ^ 24
    → write_uint32 n ++ payload ≡ (x ∷ xs) ++ z
    → length (x ∷ xs) < n + 4
    → 3 ≤ length m
    → Dec (3 < length (x ∷ xs))
    → recognize_msg bt_recognizers 0 ((x ∷ xs) ++ m) (length (x ∷ xs)) ≡ ok nothing
recognize_part_common x xs z m n payload h e l r (yes p) =
    let (more, q, q') =
      append_front (write_uint32 n) payload (x ∷ xs) z (sym e)
        (omega (arith, length-write_uint32 n)) in
    rw (ap (λ t. t ++ m) q, append_assoc (write_uint32 n) more m)
      (recognize_no (write_uint32 n ++ (more ++ m)) (length (x ∷ xs)) n _
        (read_uint32-write_uint32 n (more ++ m) (omega arith)) (omega arith)
        (handshake_no n (more ++ m) (length (x ∷ xs)) h) l)
recognize_part_common x xs z m n payload h e l r (no p) =
    let (v, after, q, low, high) =
      read_uint32_first x (xs ++ m) (omega (arith, length-append xs m)) in
    let (rest, e') = write_uint32_small n h in
    let first : x ≡ 0 = cc in
    recognize_no (x ∷ (xs ++ m)) (length (x ∷ xs)) v after q (omega (arith, first))
      (handshake_short _ _ (omega (arith, p))) (omega (arith, p))

-- Of a message that is there in part nothing is found, whatever bytes stand behind that part.
pub recognize_part :
    (f : Frame) (x : ℕ) (xs z m : List ℕ)
    → IsFrame f
    → frame_bytes f ≡ (x ∷ xs) ++ z
    → length (x ∷ xs) < length (frame_bytes f)
    → 3 ≤ length m
    → recognize_msg bt_recognizers 0 ((x ∷ xs) ++ m) (length (x ∷ xs)) ≡ ok nothing
unfolding frame_bytes IsFrame
recognize_part (handshake rest) x xs z m h e l r =
    let (v, after, q, low, high) =
      read_uint32_first x (xs ++ m) (omega (arith, length-append xs m)) in
    let first : x ≡ 19 = cc in
    recognize_no (x ∷ (xs ++ m)) (length (x ∷ xs)) v after q (omega (arith, first))
      (handshake_short _ _ (omega (arith, h, l))) (omega (arith, first, h))
recognize_part (common payload) x xs z m h e l r =
    recognize_part_common x xs z m (length payload) payload h e
      (omega (arith, l, length-frame_common payload)) r (dec_lt 3 (length (x ∷ xs)))

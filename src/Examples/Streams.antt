-- ===== src/Examples/Streams.antt =====
-- A concrete memory, and messages that arrive in pieces.
use resource_cache.Common.{
  refl, ℕ, ◌≡◌, List, [], ◌∷◌, length-replicate, map, replicate, some, none, arith,
}
use resource_cache.Common.Results.{ok, out_of_fuel}
use resource_cache.Io.{write_uint32}
use resource_cache.Recombiner.Memory.{Heap}
use resource_cache.Recombiner.Buffer.{PktBuf, new_buf, append_data, retrive_data, append_udp_data}
use resource_cache.Recombiner.Recognizers.{bt_recognizers}
use resource_cache.Recombiner.Process.{process_pkt, receive_all}
use resource_cache.Recombiner.Held.{
  IsValid, contents, Appends, Retrieves, append_data_lem, retrive_data_lem,
}
use resource_cache.Recombiner.Frames.{Frame, common, frame_bytes, IsFrame}
use resource_cache.Recombiner.Turns.{stream, AllFrames, frame_call}
use resource_cache.Recombiner.Arrival.{join, receive_all-stream}
use resource_cache.Recombiner.Endless.{process_pkt-endless}
use resource_cache.Recombiner.Udp.{append_udp_data-none}

abbrev heap : Heap
heap = record {
  fresh = λ n. replicate n 255;
  roomy = λ n. omega (arith, length-replicate {A = ℕ} n 255);
}

-- Three bytes are held, of which one was retrieved.
abbrev small_buf : PktBuf
small_buf = record { buf = 1 ∷ 2 ∷ 3 ∷ 9 ∷ []; read_index = 1; buf_size = 2 }

small_buf-IsValid : IsValid small_buf
small_buf-IsValid = record { fits = omega arith }

append_data_lem_example :
    (b' : PktBuf) × (append_data heap (4 ∷ 5 ∷ []) small_buf ≡ some b')
    × Appends small_buf (4 ∷ 5 ∷ []) b'
append_data_lem_example =
    append_data_lem heap small_buf (4 ∷ 5 ∷ []) small_buf-IsValid (omega arith)

retrive_data_lem_example :
    (b' : PktBuf) × (retrive_data 1 small_buf ≡ some b') × Retrieves small_buf 1 b'
retrive_data_lem_example =
    retrive_data_lem small_buf 1 small_buf-IsValid (omega arith) (omega arith)

-- A message of one byte and an empty one, the keep-alive.
abbrev two_frames : List Frame
two_frames = common (7 ∷ []) ∷ common [] ∷ []

-- The first piece ends within the length of the first message.
abbrev pieces : List (List ℕ)
pieces = (0 ∷ 0 ∷ []) ∷ (0 ∷ 1 ∷ 7 ∷ 0 ∷ []) ∷ (0 ∷ 0 ∷ 0 ∷ []) ∷ []

two_frames-AllFrames : AllFrames two_frames
unfolding IsFrame
two_frames-AllFrames = (omega arith, (omega arith, tt))

pieces-stream : join pieces ≡ stream two_frames
unfolding frame_bytes write_uint32
pieces-stream = refl

receive_all-stream_example :
    (b' : PktBuf) × (receive_all heap bt_recognizers pieces (new_buf heap)
      ≡ ok (map frame_call two_frames, b'))
    × (contents b' ≡ [])
receive_all-stream_example =
    receive_all-stream heap pieces two_frames two_frames-AllFrames pieces-stream (omega arith)

abbrev bad_buf : PktBuf
bad_buf = record { buf = 255 ∷ 255 ∷ 255 ∷ 252 ∷ []; read_index = 0; buf_size = 4 }

process_pkt-endless_example : process_pkt heap bt_recognizers 100 bad_buf ≡ out_of_fuel
process_pkt-endless_example =
    process_pkt-endless heap 100 bad_buf [] refl (omega arith) (omega arith)

abbrev long_datagram : List ℕ
long_datagram = replicate 20000 1

append_udp_data-none_example : append_udp_data heap long_datagram bad_buf ≡ none
append_udp_data-none_example =
    append_udp_data-none heap bad_buf long_datagram
      (omega (arith, length-replicate {A = ℕ} 20000 1)) (length-replicate {A = ℕ} 16384 255)
      (omega (arith, length-replicate {A = ℕ} 20000 1))

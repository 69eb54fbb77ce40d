-- ===== src/Recombiner/Arrival.antt =====
-- pub/pkt_recombiner.cpp: however the bytes of a BT connection arrive, its messages come out.
use resource_cache.Common.{
  refl, ℕ, ◌+◌, ◌*◌, ◌^◌, ◌≤◌, ◌<◌, ◌≡◌, ap, sym, ◌∙◌, subst, List, [], ◌∷◌, ◌++◌, map, length,
  arith, length-append, append_assoc, append-nil,
}
use resource_cache.Common.Results.{ok}
use resource_cache.Recombiner.Memory.{Heap}
use resource_cache.Recombiner.Buffer.{PktBuf, reserved_buf_size, new_buf}
use resource_cache.Recombiner.Recognizers.{bt_recognizers}
use resource_cache.Recombiner.Process.{Call, receive, receive_all}
use resource_cache.Recombiner.Held.{IsValid, contents, length-contents, append_data_lem}
use resource_cache.Recombiner.Frames.{Frame, frame_bytes}
use resource_cache.Recombiner.Turns.{stream, AllFrames, frame_call, next_length, next_length_pos}
use resource_cache.Recombiner.Stream.{Processed, process_pkt_lem, process_none}

abbrev pub join : List (List ℕ) → List ℕ
join [] = []
join (chunk ∷ chunks) = chunk ++ join chunks

AllFrames-append : (fs gs : List Frame) → AllFrames (fs ++ gs) → AllFrames gs
AllFrames-append [] gs a = a
AllFrames-append (f ∷ fs) gs a = AllFrames-append fs gs a.1

map-append_calls :
    (fs gs : List Frame) → map frame_call fs ++ map frame_call gs ≡ map frame_call (fs ++ gs)
map-append_calls [] gs = refl
map-append_calls (f ∷ fs) gs = ap (λ t. frame_call f ∷ t) (map-append_calls fs gs)

-- Where the next message is not there as a whole and nothing is to come, there is none.
no_more :
    (b : PktBuf) (fs : List Frame)
    → IsValid b
    → contents b ≡ stream fs
    → b.buf_size < next_length fs
    → fs ≡ []
no_more b [] v e s = refl
no_more b (f ∷ fs) v e s =
    absurd
      (omega (arith, length-contents b v, ap length e, length-append (frame_bytes f) (stream fs)))

module _ (heap : Heap) where
  receive_lem :
      (chunk : List ℕ) (b : PktBuf) (fs : List Frame) (ys : List ℕ)
      → IsValid b
      → AllFrames fs
      → contents b ++ (chunk ++ ys) ≡ stream fs
      → b.buf_size < next_length fs
      → 2 * (b.read_index + b.buf_size + length chunk) < 2 ^ 32
      → b.read_index + b.buf_size + length chunk + 6 ≤ length b.buf
      → (b₁ : PktBuf) × (calls : List Call) × (b' : PktBuf) × (receive heap bt_recognizers chunk b
          ≡ ok (calls, b'))
        × (b₁.read_index + b₁.buf_size ≤ b.read_index + b.buf_size + length chunk)
        × (length b₁.buf ≡ length b.buf)
        × Processed b₁ fs ys calls b'
  unfolding receive
  receive_lem [] b fs ys v a e s small roomy =
      (b, [], b, refl, omega arith, refl, process_none b fs ys v e s)
  receive_lem (c ∷ cs) b fs ys v a e s small roomy =
      let (b₁, q, w) = append_data_lem heap b (c ∷ cs) v small in
      let same = w.stays (omega (arith, roomy)) in
      let held : contents b₁ ++ ys ≡ stream fs =
        ap (λ t. t ++ ys) w.held ∙ append_assoc (contents b) (c ∷ cs) ys ∙ e in
      let (calls, b', q', p) =
        process_pkt_lem heap (b₁.buf_size + 1) b₁ fs ys w.valid
          (omega (arith, w.size, w.no_further, same, roomy)) a held (omega (arith, w.size))
          (omega arith) (omega (arith, w.size, w.no_further)) in
      (b₁, calls, b', rw (q, q') refl, omega (arith, w.size, w.no_further), same, p)

  receive_all_lem :
      (chunks : List (List ℕ)) (b : PktBuf) (fs : List Frame)
      → IsValid b
      → AllFrames fs
      → contents b ++ join chunks ≡ stream fs
      → b.buf_size < next_length fs
      → 2 * (b.read_index + b.buf_size + length (join chunks)) < 2 ^ 32
      → b.read_index + b.buf_size + length (join chunks) + 6 ≤ length b.buf
      → (b' : PktBuf) × (receive_all heap bt_recognizers chunks b ≡ ok (map frame_call fs, b'))
        × (contents b' ≡ [])
  receive_all_lem [] b fs v a e s small roomy =
      let whole : contents b ≡ stream fs = sym (append-nil (contents b)) ∙ e in
      let none_left = no_more b fs v whole s in (b, rw none_left refl, whole ∙ ap stream none_left)
  receive_all_lem (chunk ∷ chunks) b fs v a e s small roomy =
      let total = length-append chunk (join chunks) in
      let (b₁, calls, b₂, q, l, same, p) =
        receive_lem chunk b fs (join chunks) v a e s (omega (arith, total))
          (omega (arith, total, roomy)) in
      let (b', q', empty) =
        receive_all_lem chunks b₂ p.left p.valid
          (AllFrames-append p.done p.left (subst AllFrames p.cut a)) p.held p.short
          (omega (arith, total, l, p.end_stays))
          (omega (arith, total, roomy, l, same, p.end_stays, p.same_length)) in
      let all : calls ++ map frame_call p.left ≡ map frame_call fs =
        ap (λ t. t ++ map frame_call p.left) p.called
        ∙ map-append_calls p.done p.left
        ∙ ap (map frame_call) (sym p.cut) in
      let ran : receive_all heap bt_recognizers (chunk ∷ chunks) b
          ≡ ok (calls ++ map frame_call p.left, b') =
        rw (q, q') refl in
      (b', ran ∙ ap (λ t. ok (t, b')) all, empty)

  new_buf-IsValid : IsValid (new_buf heap)
  unfolding new_buf
  new_buf-IsValid = record { fits = omega arith }

  -- When messages of a BT connection, handshakes and messages of less than 2 ^ 24 bytes of payload,
  -- which in all have at most 16378 bytes, six less than the memory first reserved, arrive in any pieces
  -- at a new recombiner, each is given once, whole and in order to the processor of its recognizer,
  -- nothing is left, every copy and every read lies within the memory, no assertion fails and the loops
  -- end. A recognizer looks at bytes beyond what is held, so the six bytes are needed.
  pub receive_all-stream :
      (chunks : List (List ℕ)) (fs : List Frame)
      → AllFrames fs
      → join chunks ≡ stream fs
      → length (join chunks) + 6 ≤ reserved_buf_size
      → (b' : PktBuf) × (receive_all heap bt_recognizers chunks (new_buf heap)
          ≡ ok (map frame_call fs, b'))
        × (contents b' ≡ [])
  unfolding new_buf
  receive_all-stream chunks fs a e small =
      receive_all_lem chunks (new_buf heap) fs new_buf-IsValid a e (next_length_pos fs)
        (omega arith) (omega (arith, heap.roomy reserved_buf_size))

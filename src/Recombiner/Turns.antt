-- ===== src/Recombiner/Turns.antt =====
-- pub/pkt_recombiner.cpp: one turn of `ProcessPkt` on a stream of messages of a BT connection.
use resource_cache.Common.{
  refl, ℕ, suc, ◌+◌, ◌^◌, ◌≤◌, ◌<◌, ◌≡◌, ap, sym, ◌∙◌, List, [], ◌∷◌, ◌++◌, some, le→leb, length,
  drop, ◌==◌, if◌then◌else◌, arith, length-append, length-drop, append_assoc, append_front,
  take_append_drop, take-append, drop-append_all,
}
use resource_cache.Common.Results.{ok, ◌>>=◌}
use resource_cache.Recombiner.Memory.{Heap, bytes_at}
use resource_cache.Recombiner.Buffer.{PktBuf, retrive_data}
use resource_cache.Recombiner.Recognizers.{bt_recognizers}
use resource_cache.Recombiner.Process.{Call, nothing, found, recognize_msg, get_buf, process_pkt}
use resource_cache.Recombiner.Held.{IsValid, contents, length-contents, retrive_data_lem}
use resource_cache.Recombiner.Frames.{
  Frame, handshake, common, frame_bytes, frame_entry, IsFrame, recognize_whole, recognize_part,
  length-frame_common,
}

abbrev pub stream : List Frame → List ℕ
stream [] = []
stream (f ∷ fs) = frame_bytes f ++ stream fs

abbrev pub AllFrames : List Frame → Type 0
AllFrames [] = Unit
AllFrames (f ∷ fs) = IsFrame f × AllFrames fs

-- The processor of its recognizer gets the message.
abbrev pub frame_call : Frame → Call
frame_call f = record { entry = frame_entry f; bytes = frame_bytes f }

abbrev pub next_length : List Frame → ℕ
next_length [] = 1
next_length (f ∷ fs) = length (frame_bytes f)

pub next_length_pos : (fs : List Frame) → 0 < next_length fs
unfolding frame_bytes
next_length_pos [] = omega arith
next_length_pos (handshake rest ∷ fs) = omega arith
next_length_pos (common payload ∷ fs) = omega (arith, length-frame_common payload)

-- Six bytes of the memory lie behind what is held; the recognizers read no further.
abbrev pub IsRoomy : PktBuf → Type 0
IsRoomy b = b.read_index + b.buf_size + 6 ≤ length b.buf

module _ (heap : Heap) where
  -- What the recognizers see: what is held, and other bytes.
  pub get_buf_lem :
      (b : PktBuf)
      → (stale : List ℕ) × (get_buf heap bt_recognizers b ≡ contents b ++ stale)
        × (IsRoomy b → 6 ≤ length stale)
  get_buf_lem b = (
    drop b.buf_size (drop b.read_index b.buf),
    sym (take_append_drop b.buf_size (drop b.read_index b.buf)),
    λ roomy. omega (
      arith,
      length-drop b.buf_size (drop b.read_index b.buf),
      length-drop b.read_index b.buf,
      roomy,
    ),
  )

  -- A turn that finds a message.
  process_whole :
      (fuel i len : ℕ) (b b' : PktBuf) (front stale : List ℕ)
      → recognize_msg bt_recognizers 0 (get_buf heap bt_recognizers b) b.buf_size ≡ ok (found i len)
      → get_buf heap bt_recognizers b ≡ front ++ stale
      → len ≡ length front
      → retrive_data len b ≡ some b'
      → process_pkt heap bt_recognizers (suc fuel) b ≡ (
          let more = (do
            (calls, b'') ← process_pkt heap bt_recognizers fuel b'
            ok (record { entry = i; bytes = front } ∷ calls, b'')) in
          if b'.buf_size == 0 then ok (record { entry = i; bytes = front } ∷ [], b') else more)
  unfolding process_pkt bytes_at
  process_whole fuel i len b b' front stale e e' l r =
      rw
        (
          e,
          e',
          le→leb (0 + len) (length (front ++ stale)) (omega (arith, l, length-append front stale)),
          take-append len front stale l,
          r,
        )
        refl

  process_part :
      (fuel : ℕ) (b : PktBuf)
      → recognize_msg bt_recognizers 0 (get_buf heap bt_recognizers b) b.buf_size ≡ ok nothing
      → process_pkt heap bt_recognizers (suc fuel) b ≡ ok ([], b)
  unfolding process_pkt
  process_part fuel b e = rw e refl

  pub part_turn :
      (fuel : ℕ) (b : PktBuf) (f : Frame) (rest ys cs : List ℕ)
      → IsValid b
      → IsRoomy b
      → IsFrame f
      → contents b ≡ cs
      → contents b ++ ys ≡ frame_bytes f ++ rest
      → 0 < b.buf_size
      → b.buf_size < length (frame_bytes f)
      → process_pkt heap bt_recognizers (suc fuel) b ≡ ok ([], b)
  part_turn fuel b f rest ys [] v roomy h c e p l =
      absurd (omega (arith, length-contents b v, ap length c))
  part_turn fuel b f rest ys (x ∷ xs) v roomy h c e p l =
      let (stale, q, r) = get_buf_lem b in
      let size : b.buf_size ≡ length (x ∷ xs) = sym (length-contents b v) ∙ ap length c in
      let (z, q', e') =
        append_front (x ∷ xs) ys (frame_bytes f) rest (sym e ∙ ap (λ t. t ++ ys) c)
          (omega (arith, size)) in
      process_part fuel b (
        rewritten _ _ b.buf_size _ (q ∙ ap (λ t. t ++ stale) c) size
          (recognize_part f x xs z stale h q' (omega (arith, size)) (omega (arith, r roomy))))
    where
      rewritten :
          (buf buf' : List ℕ) (len len' : ℕ)
          → buf ≡ buf'
          → len ≡ len'
          → recognize_msg bt_recognizers 0 buf' len' ≡ ok nothing
          → recognize_msg bt_recognizers 0 buf len ≡ ok nothing
      rewritten buf buf' len len' e e' h = rw (e, e') h

  -- A message that is there as a whole is processed and retrieved.
  pub whole_turn :
      (fuel : ℕ) (b : PktBuf) (f : Frame) (rest ys : List ℕ)
      → IsValid b
      → IsFrame f
      → contents b ++ ys ≡ frame_bytes f ++ rest
      → length (frame_bytes f) ≤ b.buf_size
      → b.read_index + b.buf_size < 2 ^ 32
      → (b' : PktBuf) × (process_pkt heap bt_recognizers (suc fuel) b ≡ (
          let more = (do
            (calls, b'') ← process_pkt heap bt_recognizers fuel b'
            ok (frame_call f ∷ calls, b'')) in
          if b'.buf_size == 0 then ok (frame_call f ∷ [], b') else more))
        × IsValid b'
        × (contents b' ++ ys ≡ rest)
        × (b'.read_index + b'.buf_size ≡ b.read_index + b.buf_size)
        × (b'.buf_size + length (frame_bytes f) ≡ b.buf_size)
        × (length b'.buf ≡ length b.buf)
  whole_turn fuel b f rest ys v h e l s =
      let (stale, q, r) = get_buf_lem b in
      let (more, c, e') =
        append_front (frame_bytes f) rest (contents b) ys e (omega (arith, length-contents b v)) in
      let (b', t, w) = retrive_data_lem b (length (frame_bytes f)) v l s in
      let seen : get_buf heap bt_recognizers b ≡ frame_bytes f ++ (more ++ stale) =
        q ∙ ap (λ u. u ++ stale) c ∙ append_assoc (frame_bytes f) more stale in
      let kept : contents b' ≡ more =
        w.held
        ∙ ap (drop (length (frame_bytes f))) c
        ∙ drop-append_all (length (frame_bytes f)) (frame_bytes f) more refl in
      (
        b',
        process_whole fuel (frame_entry f) (length (frame_bytes f)) b b' (frame_bytes f)
            (more ++ stale) (rw seen (recognize_whole f (more ++ stale) b.buf_size h l)) seen refl
            t,
        w.valid,
        ap (λ u. u ++ ys) kept ∙ e',
        w.end_stays,
        omega (
          arith,
          length-contents b v,
          length-contents b' w.valid,
          ap length kept,
          ap length c,
          length-append (frame_bytes f) more,
        ),
        w.same_length,
      )

-- ===== src/Recombiner/Endless.antt =====
-- pub/pkt_recombiner.cpp: a message that is recognized with length 0 is processed for ever.
use resource_cache.Common.{
  refl, ℕ, zero, suc, ◌+◌, ◌-◌, ◌%◌, ◌^◌, ◌<◌, ◌≡◌, ap, ◌∙◌, List, [], ◌∷◌, ◌++◌, some, length,
  ◌==◌, arith, le→leb, false,
}
use resource_cache.Common.Results.{ok, out_of_fuel}
use resource_cache.Io.{read_uint32}
use resource_cache.Recombiner.Memory.{Heap, bytes_at}
use resource_cache.Recombiner.Buffer.{PktBuf, retrive_data}
use resource_cache.Recombiner.Recognizers.{
  no_message, message, recognize_distri_download, recognize_bt_handshake, recognize_bt_common,
  bt_recognizers,
}
use resource_cache.Recombiner.Process.{found, recognize_msg, get_buf, process_pkt}
use resource_cache.Recombiner.Held.{contents}
use resource_cache.Recombiner.Turns.{get_buf_lem}

retrive_data_zero : (b : PktBuf) → b.read_index < 2 ^ 32 → retrive_data 0 b ≡ some b
unfolding retrive_data
retrive_data_zero b h = rw (le→leb 0 b.buf_size (omega arith)) (
    ap (λ i. some (record { buf = b.buf; read_index = i; buf_size = b.buf_size - 0 }))
      (index (b.read_index) h)
    ∙ ap (λ s. some (record { buf = b.buf; read_index = b.read_index; buf_size = s }))
        (size (b.buf_size)))
  where
    index : (i : ℕ) → i < 2 ^ 32 → (i + 0) % 2 ^ 32 ≡ i
    index i h = omega arith

    size : (s : ℕ) → s - 0 ≡ s
    size s = omega arith

-- A length of 2 ^ 32 - 4, to which the code adds 4.
abbrev pub wrapping : List ℕ
wrapping = 255 ∷ 255 ∷ 255 ∷ 252 ∷ []

distri_wrapping :
    (xs : List ℕ) (len : ℕ) → recognize_distri_download (wrapping ++ xs) len ≡ some no_message
unfolding recognize_distri_download read_uint32
distri_wrapping xs len = ground arith

handshake_wrapping :
    (xs : List ℕ) (len : ℕ) → recognize_bt_handshake (wrapping ++ xs) len ≡ some no_message
unfolding recognize_bt_handshake
handshake_wrapping xs len = ground arith

common_wrapping :
    (xs : List ℕ) (len : ℕ) → recognize_bt_common (wrapping ++ xs) len ≡ some (message 0)
unfolding recognize_bt_common read_uint32
common_wrapping xs len = ground arith

recognize_msg-wrapping :
    (xs : List ℕ) (len : ℕ) → recognize_msg bt_recognizers 0 (wrapping ++ xs) len ≡ ok (found 2 0)
unfolding recognize_msg
recognize_msg-wrapping xs len =
    rw (distri_wrapping xs len, handshake_wrapping xs len, common_wrapping xs len) refl

module _ (heap : Heap) where
  turn :
      (fuel : ℕ) (b : PktBuf)
      → recognize_msg bt_recognizers 0 (get_buf heap bt_recognizers b) b.buf_size ≡ ok (found 2 0)
      → retrive_data 0 b ≡ some b
      → 0 < b.buf_size
      → process_pkt heap bt_recognizers fuel b ≡ out_of_fuel
      → process_pkt heap bt_recognizers (suc fuel) b ≡ out_of_fuel
  unfolding process_pkt bytes_at
  turn fuel b e r p ih =
      let again : (b.buf_size == 0) ≡ false = ground arith in
      rw (e, le→leb 0 (length (get_buf heap bt_recognizers b)) (omega arith), r, again, ih) refl

  process_zero : (b : PktBuf) → process_pkt heap bt_recognizers zero b ≡ out_of_fuel
  unfolding process_pkt
  process_zero b = refl

  -- Once a BT connection holds bytes with a length of 2 ^ 32 - 4 at their front, from an index that fits
  -- in 32 bits on, the loop of `ProcessPkt` does not end, whatever follows: no fuel is enough.
  pub process_pkt-endless :
      (fuel : ℕ) (b : PktBuf) (xs : List ℕ)
      → contents b ≡ wrapping ++ xs
      → b.read_index < 2 ^ 32
      → 0 < b.buf_size
      → process_pkt heap bt_recognizers fuel b ≡ out_of_fuel
  process_pkt-endless zero b xs e h p = process_zero b
  process_pkt-endless (suc fuel) b xs e h p =
      let (stale, q, r) = get_buf_lem heap b in
      let seen : get_buf heap bt_recognizers b ≡ wrapping ++ (xs ++ stale) =
        q ∙ ap (λ t. t ++ stale) e in
      turn fuel b (rw seen (recognize_msg-wrapping (xs ++ stale) b.buf_size))
        (retrive_data_zero b h) p (process_pkt-endless fuel b xs e h p)

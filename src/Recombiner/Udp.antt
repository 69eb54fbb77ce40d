-- ===== src/Recombiner/Udp.antt =====
-- pub/pkt_recombiner.cpp: `PktBuf::AppendUdpData`.
use resource_cache.Common.{
  refl, ℕ, ◌≤◌, ◌<◌, ◌≡◌, ap, ◌∙◌, List, some, none, ltb, length, arith, drop, take, false, lt→ltb,
}
use resource_cache.Recombiner.Memory.{Heap, reserve, write_at}
use resource_cache.Recombiner.Buffer.{PktBuf, reserved_buf_size, append_udp_data}
use resource_cache.Recombiner.Held.{contents, write_front_lem}

write_at_out : (buf bytes : List ℕ) → length buf < length bytes → write_at buf 0 bytes ≡ none
unfolding write_at
write_at_out buf bytes h = ground arith

module _ (heap : Heap) where
  -- A datagram that fits in the memory replaces what was held, if nothing was ever retrieved.
  pub append_udp_data_lem :
      (b : PktBuf) (bytes : List ℕ)
      → b.read_index ≡ 0
      → length bytes ≤ length b.buf
      → (b' : PktBuf) × (append_udp_data heap bytes b ≡ some b')
        × (contents b' ≡ bytes)
        × (b'.read_index ≡ 0)
        × (length b'.buf ≡ length b.buf)
  unfolding append_udp_data
  append_udp_data_lem b bytes z h =
      let (buf, q, same, front) = write_front_lem b.buf (length bytes) bytes refl h in
      let fits : ltb (length b.buf) (length bytes) ≡ false = ground arith in
      (
        record { buf = buf; read_index = b.read_index; buf_size = length bytes },
        rw (fits, q) refl,
        ap (λ i. take (length bytes) (drop i buf)) z ∙ front,
        z,
        same,
      )

  reserve_short :
      (buf bytes : List ℕ)
      → length buf < length bytes
      → length (heap.fresh reserved_buf_size) < length bytes
      → length (reserve heap reserved_buf_size buf) < length bytes
  unfolding reserve
  reserve_short buf bytes h l = ground arith

  -- A longer one is copied out of bounds if it has more than the 16384 bytes that are reserved for it,
  -- where reserving gives as many bytes as are asked for.
  pub append_udp_data-none :
      (b : PktBuf) (bytes : List ℕ)
      → length b.buf < length bytes
      → length (heap.fresh reserved_buf_size) ≡ reserved_buf_size
      → reserved_buf_size < length bytes
      → append_udp_data heap bytes b ≡ none
  unfolding append_udp_data
  append_udp_data-none b bytes h e l =
      rw
        (
          lt→ltb (length b.buf) (length bytes) h,
          write_at_out (reserve heap reserved_buf_size b.buf) bytes
              (reserve_short b.buf bytes h (omega (arith, e, l))),
        )
        refl

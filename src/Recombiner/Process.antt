-- ===== src/Recombiner/Process.antt =====
-- pub/pkt_recombiner.cpp: `PktRecombiner`. What the processors do with the messages is left open: a
-- call of one is its place among the recognizers and the bytes that it is given.
use resource_cache.Common.{
  ℕ, zero, suc, ◌+◌, Option, none, some, List, [], ◌∷◌, ◌++◌, drop, ◌==◌, if◌then◌else◌,
}
use resource_cache.Common.Results.{Result, ok, failed, out_of_fuel, ◌>>=◌, of_option}
use resource_cache.Recombiner.Memory.{Heap, bytes_at}
use resource_cache.Recombiner.Buffer.{PktBuf, append_data, append_udp_data, retrive_data}
use resource_cache.Recombiner.Recognizers.{Recognized, Recognizer, no_message, message}

pub record Call : Type 0 where
  pub entry : ℕ
  pub bytes : List ℕ

pub data Found : Type 0 where
  nothing : Found
  found : ℕ → ℕ → Found

-- One turn of the `for` loops, for the i-th recognizer.
abbrev pub or_next : ℕ → Option Recognized → Result Found → Result Found
or_next i none next = failed
or_next i (some no_message) next = next
or_next i (some (message recognized_len)) next = ok (found i recognized_len)

-- The `for` loops, up to the first recognizer that finds a message.
unfoldable pub recognize_msg : List Recognizer → ℕ → List ℕ → ℕ → Result Found
recognize_msg [] i buf len = ok nothing
recognize_msg (recognizer ∷ entries) i buf len =
    or_next i (recognizer buf len) (recognize_msg entries (i + 1) buf len)

module _ (heap : Heap) (entries : List Recognizer) where
  -- `GetBuf`: the memory from the first byte held on. A recognizer that reads past its end fails.
  abbrev pub get_buf : PktBuf → List ℕ
  get_buf b = drop b.read_index b.buf

  -- On fuel, since a message of length 0 is recognized for ever.
  unfoldable pub process_pkt : ℕ → PktBuf → Result (List Call × PktBuf)
  process_pkt zero b = out_of_fuel
  process_pkt (suc fuel) b = recognize_msg entries 0 (get_buf b) b.buf_size >>= λ f. elim f [
    | nothing ↦ ok ([], b)
    | found i len ↦ (do
      bytes ← of_option (bytes_at (get_buf b) 0 len)
      b' ← of_option (retrive_data len b)
      let more = (do
        (calls, b'') ← process_pkt fuel b'
        ok (record { entry = i; bytes = bytes } ∷ calls, b''))
      if b'.buf_size == 0 then ok (record { entry = i; bytes = bytes } ∷ [], b') else more)
  ]

  unfoldable pub process_udp_pkt : PktBuf → Result (List Call)
  process_udp_pkt b = recognize_msg entries 0 (get_buf b) b.buf_size >>= λ f. elim f [
    | nothing ↦ ok []
    | found i len ↦ (do
      bytes ← of_option (bytes_at (get_buf b) 0 len)
      ok (record { entry = i; bytes = bytes } ∷ []))
  ]

  -- `PktRecombiner::AppendData`. Each turn takes a byte, unless it takes none and there is no end.
  unfoldable pub receive : List ℕ → PktBuf → Result (List Call × PktBuf)
  receive [] b = ok ([], b)
  receive (c ∷ cs) b = do
    b' ← of_option (append_data heap (c ∷ cs) b)
    process_pkt (b'.buf_size + 1) b'

  -- `PktRecombiner::AppendUdpData`.
  unfoldable pub receive_udp : List ℕ → PktBuf → Result (List Call × PktBuf)
  receive_udp [] b = ok ([], b)
  receive_udp (c ∷ cs) b = do
    b' ← of_option (append_udp_data heap (c ∷ cs) b)
    calls ← process_udp_pkt b'
    ok (calls, b')

  -- What a connection receives in one call after another.
  abbrev pub receive_all : List (List ℕ) → PktBuf → Result (List Call × PktBuf)
  receive_all [] b = ok ([], b)
  receive_all (chunk ∷ chunks) b = do
    (calls, b') ← receive chunk b
    (more, b'') ← receive_all chunks b'
    ok (calls ++ more, b'')

-- ===== src/Recombiner/Buffer.antt =====
-- pub/pkt_recombiner.cpp: `PktRecombiner::PktBuf`. A copy out of the memory's bounds is `none`.
use resource_cache.Common.{
  ℕ, ◌+◌, ◌-◌, ◌*◌, ◌%◌, ◌^◌, Option, some, List, length, leb, ltb, if◌then◌else◌, ◌>>=◌, ◌>>◌,
  bc_assert,
}
use resource_cache.Recombiner.Memory.{Heap, reserve, bytes_at, write_at}

-- `buf` is the memory that the vector has reserved.
pub record PktBuf : Type 0 where
  pub buf : List ℕ
  pub read_index : ℕ
  pub buf_size : ℕ

-- `kReservedBufSize`.
abbrev pub reserved_buf_size : ℕ
reserved_buf_size = 16 * 1024

module _ (heap : Heap) where
  unfoldable pub new_buf : PktBuf
  new_buf = record { buf = heap.fresh reserved_buf_size; read_index = 0; buf_size = 0 }

  -- What is held is moved to a larger memory.
  unfoldable pub enlarge : ℕ → ℕ → List ℕ → Option (List ℕ)
  enlarge final_size buf_size buf = do
    tmp ← bytes_at buf 0 buf_size
    write_at (reserve heap ((final_size * 2) % (2 ^ 32)) buf) 0 tmp

  unfoldable pub make_room : ℕ → ℕ → PktBuf → Option PktBuf
  make_room final_size len b = do
    moved ← bytes_at b.buf b.read_index b.buf_size
    buf ← write_at b.buf 0 moved
    let enlarged = enlarge final_size b.buf_size buf
    buf' ← if ltb (length buf) ((b.buf_size + len) % (2 ^ 32)) then enlarged else some buf
    bc_assert (leb ((b.buf_size + len) % (2 ^ 32)) (length buf'))
    some (record { buf = buf'; read_index = 0; buf_size = b.buf_size })

  unfoldable pub append_data : List ℕ → PktBuf → Option PktBuf
  append_data bytes b = do
    let final_size = (b.read_index + b.buf_size + length bytes) % (2 ^ 32)
    let roomy = make_room final_size (length bytes) b
    b' ← if ltb (length b.buf) final_size then roomy else some b
    buf ← write_at b'.buf ((b'.read_index + b'.buf_size) % (2 ^ 32)) bytes
    some (record {
      buf = buf;
      read_index = b'.read_index;
      buf_size = (b'.buf_size + length bytes) % (2 ^ 32);
    })

  -- `clear` keeps the memory.
  unfoldable pub append_udp_data : List ℕ → PktBuf → Option PktBuf
  append_udp_data bytes b = do
    let roomy = reserve heap reserved_buf_size b.buf
    buf ← write_at (if ltb (length b.buf) (length bytes) then roomy else b.buf) 0 bytes
    some (record { buf = buf; read_index = b.read_index; buf_size = length bytes })

unfoldable pub retrive_data : ℕ → PktBuf → Option PktBuf
retrive_data len b = do
  bc_assert (leb len b.buf_size)
  some (record {
    buf = b.buf;
    read_index = (b.read_index + len) % (2 ^ 32);
    buf_size = b.buf_size - len;
  })

-- ===== src/Recombiner/Memory.antt =====
-- The memory of a `std::vector<char>` that is reserved and never resized, and copies in it.
use resource_cache.Common.{
  ℕ, ◌+◌, ◌≤◌, Option, none, some, List, ◌++◌, length, take, drop, leb, ltb, if◌then◌else◌,
}

-- What `reserve` gives is not up to the code.
pub record Heap : Type 0 where
  pub fresh : ℕ → List ℕ
  pub roomy : (n : ℕ) → n ≤ length (fresh n)

-- A vector of size 0 does not keep its bytes when it grows.
unfoldable pub reserve : Heap → ℕ → List ℕ → List ℕ
reserve heap n buf = if ltb (length buf) n then heap.fresh n else buf

-- `n` bytes from the i-th on, which must lie within the memory.
unfoldable pub bytes_at : List ℕ → ℕ → ℕ → Option (List ℕ)
bytes_at buf i n = if leb (i + n) (length buf) then some (take n (drop i buf)) else none

-- The bytes overwrite those from the i-th on, which must lie within the memory.
unfoldable pub write_at : List ℕ → ℕ → List ℕ → Option (List ℕ)
write_at buf i bytes =
    if leb (i + length bytes) (length buf)
    then some (take i buf ++ (bytes ++ drop (i + length bytes) buf))
    else none

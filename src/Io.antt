-- ===== src/Io.antt =====
-- pub/inc/bc_io.hpp: numbers in a row of bytes. A read past the row is `none`.
use resource_cache.Common.{
  refl, ap, ℕ, zero, suc, ◌+◌, ◌*◌, ◌/◌, ◌%◌, ◌^◌, ◌≤◌, ◌<◌, ◌≡◌, Option, none, some, List, [], ◌∷◌,
  ◌++◌, length, arith,
}

-- `ret <<= 8; ret |= uint8(*start)` in a type of `width` bits, `size` times.
abbrev pub read_loop : ℕ → ℕ → ℕ → List ℕ → Option (ℕ × List ℕ)
read_loop width zero ret start = some (ret, start)
read_loop width (suc size) ret [] = none
read_loop width (suc size) ret (b ∷ start) =
    read_loop width size ((ret * 256) % (2 ^ width) + b % 256) start

unfoldable pub read_uint32 : List ℕ → Option (ℕ × List ℕ)
read_uint32 start = read_loop 32 4 0 start

unfoldable pub read_uint16 : List ℕ → Option (ℕ × List ℕ)
read_uint16 start = read_loop 16 2 0 start

-- `ret |= uint8(*start) << (8 * i)`, from the i-th byte on.
abbrev pub read_be_loop : ℕ → ℕ → ℕ → List ℕ → Option (ℕ × List ℕ)
read_be_loop zero i ret start = some (ret, start)
read_be_loop (suc size) i ret [] = none
read_be_loop (suc size) i ret (b ∷ start) =
    read_be_loop size (i + 1) (ret + b % 256 * 2 ^ (8 * i)) start

unfoldable pub read_uint8 : List ℕ → Option (ℕ × List ℕ)
read_uint8 [] = none
read_uint8 (b ∷ start) = some (b % 256, start)

-- The sixteen bits of the result.
unfoldable pub read_int16_be : List ℕ → Option (ℕ × List ℕ)
read_int16_be start = read_be_loop 2 0 0 start

-- `(val >> (i * 8)) & 0xff`, from the highest byte on.
abbrev pub write_loop : ℕ → ℕ → List ℕ
write_loop zero val = []
write_loop (suc i) val = val / 2 ^ (8 * i) % 256 ∷ write_loop i val

unfoldable pub write_uint32 : ℕ → List ℕ
write_uint32 val = write_loop 4 val

unfoldable pub write_uint16 : ℕ → List ℕ
write_uint16 val = write_loop 2 val

unfoldable pub write_uint8 : ℕ → List ℕ
write_uint8 val = write_loop 1 val

-- The same from the lowest byte on.
abbrev pub write_be_loop : ℕ → ℕ → ℕ → List ℕ
write_be_loop zero i val = []
write_be_loop (suc size) i val = val / 2 ^ (8 * i) % 256 ∷ write_be_loop size (i + 1) val

unfoldable pub write_uint16_be : ℕ → List ℕ
write_uint16_be val = write_be_loop 2 0 val

pub length-write_uint32 : (val : ℕ) → length (write_uint32 val) ≡ 4
unfolding write_uint32
length-write_uint32 val = omega arith

-- What is read from four bytes or more begins with the first of them.
pub read_uint32_first :
    (b : ℕ) (start : List ℕ)
    → 3 ≤ length start
    → (v : ℕ) × (rest : List ℕ) × (read_uint32 (b ∷ start) ≡ some (v, rest))
      × (b % 256 * 2 ^ 24 ≤ v)
      × (v < (b % 256 + 1) * 2 ^ 24)
unfolding read_uint32
read_uint32_first b (c ∷ d ∷ e ∷ start) h = (_, _, refl, omega arith, omega arith)
read_uint32_first b (c ∷ d ∷ []) h = absurd (omega arith)
read_uint32_first b (c ∷ []) h = absurd (omega arith)
read_uint32_first b [] h = absurd (omega arith)

pub read_uint32-write_uint32 :
    (val : ℕ) (rest : List ℕ)
    → val < 2 ^ 32
    → read_uint32 (write_uint32 val ++ rest) ≡ some (val, rest)
unfolding read_uint32 write_uint32
read_uint32-write_uint32 val rest h = ap (λ v. some (v, rest)) (omega arith)

-- A number that fits is read back as it was written, from the bytes in front of any others: 32 bits
-- and 16 bits with the highest byte first, and 16 bits with the lowest byte first.
pub read-write :
    (val val' : ℕ) (rest : List ℕ)
    → val < 2 ^ 32
    → val' < 2 ^ 16
    → (read_uint32 (write_uint32 val ++ rest) ≡ some (val, rest))
      × (read_uint16 (write_uint16 val' ++ rest) ≡ some (val', rest))
      × (read_int16_be (write_uint16_be val' ++ rest) ≡ some (val', rest))
unfolding read_uint16 write_uint16 read_int16_be write_uint16_be
read-write val val' rest h h' = (
  read_uint32-write_uint32 val rest h,
  ap (λ v. some (v, rest)) (omega arith),
  ap (λ v. some (v, rest)) (omega arith),
)

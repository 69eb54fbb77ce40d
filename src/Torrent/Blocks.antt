-- ===== src/Torrent/Blocks.antt =====
-- The pieces cover the torrent and the blocks cover each piece, without gap or overlap.
use resource_cache.Common.{
  ℕ, zero, suc, ◌+◌, ◌-◌, ◌*◌, ◌/◌, ◌%◌, ◌^◌, ◌≤◌, ◌<◌, ◌≡◌, ◌≢◌, sym, ap, ◌∙◌, true, false, none,
  some, length, ltb, leb, ◌==◌, if◌then◌else◌, arith, Bool-cases, inl, inr, min, lt→ltb, ltb→lt,
}
use native.Mathlib.Nat.{div-add-mod, mod-lt, mod-eq_of_lt, mul-add-mod_self_right}
use resource_cache.Torrent.{
  Torrent, u64, sub64, calc_full_mult, get_piece_size, get_block_size, get_block_num,
  get_last_block_size, to_int,
}

-- A torrent whose sizes fit the types that they pass through.
pub record IsValid (t : Torrent) : Type 0 where
  pub ready : t.is_ready ≡ true
  pub sized : 0 < t.total_size
  pub cut : 0 < t.piece_size
  pub blocked : 0 < t.block_size
  pub fits : t.total_size + t.piece_size < 2 ^ 64
  pub fits_int : t.piece_size + t.block_size < 2 ^ 31
  pub mapped : (length t.piece_map - 1) * t.piece_size < t.total_size
  pub covered : t.total_size ≤ length t.piece_map * t.piece_size

ltb_self : (n : ℕ) → ltb n n ≡ false
ltb_self n = ground arith

pos_ne : (n : ℕ) → 0 < n → (n == 0) ≡ false
pos_ne n h = ground arith

lt→leb : (a b : ℕ) → a < b → leb a b ≡ true
lt→leb a b h = ground arith

some_eq : {n m : ℕ} → some n ≡ some m → n ≡ m
some_eq e = cc

some≢none : {n : ℕ} → some n ≡ none → ⊥
some≢none e = cc

div_unique : (n b k : ℕ) → k * b ≤ n → n < k * b + b → n / b ≡ k
div_unique n b k l u = grind (arith, div-add-mod n b, mod-lt)

-- Where the sum does not wrap: the least number of parts that cover the total.
calc_full_mult_lem :
    (total base k : ℕ)
    → 0 < base
    → total + base < 2 ^ 64
    → (k - 1) * base < total
    → total ≤ k * base
    → calc_full_mult total base ≡ some k
unfolding calc_full_mult
calc_full_mult_lem total base zero h w l u = absurd (omega arith)
calc_full_mult_lem total base (suc k) h w l u =
    let e : k ≡ suc k - 1 = omega arith in
    let l' : k * base < total = rw e l in
    let q : ((total + base) % 2 ^ 64 + 18446744073709551615) % 2 ^ 64 ≡ total + base - 1 =
      omega arith in
    rw (lt→ltb 0 base h, q) (ap some (div_unique _ base (suc k) (omega arith) (omega arith)))

-- The size of the last piece on its way through `int`.
diff_lem : (a b : ℕ) → b < a → a < 2 ^ 64 → a - b < 2 ^ 31 → to_int (sub64 a (u64 b)) ≡ some (a - b)
diff_lem a b h k l =
    let q : (a + (2 ^ 64 - b % 2 ^ 64 % 2 ^ 64)) % 2 ^ 64 % 2 ^ 32 ≡ a - b = omega arith in
    rw (q, lt→ltb (a - b) (2 ^ 31) l)

mul_lt : (a b c : ℕ) → a * c < b * c → a < b
mul_lt a b c h = grind arith

-- What the code computes for the last block is what the earlier ones leave.
last_block_lem :
    (s b k : ℕ)
    → 0 < b
    → k * b < s
    → s ≤ k * b + b
    → (if s % b == 0 then some b else some (s % b)) ≡ some (s - k * b)
last_block_lem s b k h l u = elim (Bool-cases (s - k * b == b)) [
  | inl e ↦
      let q : s ≡ suc k * b + 0 = ground arith in
      let r : s % b ≡ 0 = rw q (mul-add-mod_self_right (suc k) b 0 ∙ mod-eq_of_lt h) in
      rw r (ap some (ground arith))
  | inr e ↦
      let q : s ≡ k * b + (s - k * b) = omega arith in
      let m : s - k * b < b = ground arith in
      let r : s % b ≡ s - k * b =
        ap (λ z. z % b) q ∙ mul-add-mod_self_right k b (s - k * b) ∙ mod-eq_of_lt m in
      rw (r, pos_ne (s - k * b) (omega arith))
]

small_count : (k b s : ℕ) → 0 < b → (k - 1) * b < s → s + b < 2 ^ 31 → k < 2 ^ 31
small_count zero b s p h l = omega arith
small_count (suc k) zero s p h l = absurd (omega arith)
small_count (suc k) (suc b) s p h l =
    let q : suc k - 1 ≡ k = omega arith in let r : k * suc b < s = rw (← q) h in omega arith

pub to_int_small : (k : ℕ) → k < 2 ^ 31 → to_int k ≡ some k
to_int_small k h = let q : k % 2 ^ 32 ≡ k = omega arith in rw (q, lt→ltb k (2 ^ 31) h)

-- A size is covered by its parts.
parts :
    (total base : ℕ)
    → 0 < base
    → 0 < total
    → (k : ℕ) × ((k - 1) * base < total) × (total ≤ k * base) × (0 < k)
parts total base h l =
    let q = (total - 1) / base in
    let r = (total - 1) % base in
    let e : base * q + r ≡ total - 1 = div-add-mod (total - 1) base in
    let b : r < base = mod-lt (total - 1) h in
    let s : suc q - 1 ≡ q = omega arith in (suc q, rw s (omega arith), omega arith, omega arith)

module _ (t : Torrent) (v : IsValid t) where
  piece_num_lem : calc_full_mult t.total_size t.piece_size ≡ some (length t.piece_map)
  piece_num_lem =
      calc_full_mult_lem t.total_size t.piece_size (length t.piece_map) v.cut v.fits v.mapped
        v.covered

  -- The first `n` pieces end where the next one begins, and the last one with the torrent.
  piece_end : (k n ps total : ℕ) → k < n → k ≢ n - 1 → (n - 1) * ps < total → k * ps + ps ≤ total
  piece_end k n ps total h d l = let m : k + 1 ≤ n - 1 = omega arith in grind arith

  -- In a ready torrent of at least one byte, with pieces and blocks of at least one byte, whose sizes fit the types that they pass through (total size and piece size together below 2^64, piece size and block size together below 2^31) and whose map has as many bits as pieces cover it, each piece that the map counts has a size, is not empty, and ends where the next one begins or the torrent ends.
  pub get_piece_size_lem :
      (piece : ℕ)
      → piece < length t.piece_map
      → (s : ℕ) × (get_piece_size t piece ≡ some s)
        × (0 < s)
        × (piece * t.piece_size + s ≡ min ((piece + 1) * t.piece_size) t.total_size)
  unfolding get_piece_size
  get_piece_size_lem piece h = elim (Bool-cases (piece == length t.piece_map - 1)) [
    | inl e ↦
        let q : piece ≡ length t.piece_map - 1 = ground arith in
        let low : piece * t.piece_size < t.total_size = rw q v.mapped in
        let n : piece + 1 ≡ length t.piece_map = omega arith in
        let high : t.total_size ≤ (piece + 1) * t.piece_size = rw n v.covered in
        (
          t.total_size - piece * t.piece_size,
          rw (v.ready, piece_num_lem, lt→ltb _ _ h, e, ← q)
              (diff_lem t.total_size (piece * t.piece_size) low (omega (arith, v.fits))
                (omega (arith, v.fits_int))),
          omega arith,
          omega arith,
        )
    | inr e ↦
        let l =
          piece_end piece (length t.piece_map) t.piece_size t.total_size h (ground arith)
            v.mapped in
        (t.piece_size, rw (v.ready, piece_num_lem, lt→ltb _ _ h, e), v.cut, omega arith)
  ]

  pub get_piece_size-le :
      (piece s : ℕ)
      → get_piece_size t piece ≡ some s
      → (piece < length t.piece_map) × (s ≤ t.piece_size)
  unfolding get_piece_size
  get_piece_size-le piece s e = elim (Bool-cases (ltb piece (length t.piece_map))) [
    | inl l ↦
        let (s', f, _, g) = get_piece_size_lem piece (ltb→lt _ _ l) in
        let q : s ≡ s' = some_eq (sym e ∙ f) in (ltb→lt _ _ l, omega arith)
    | inr l ↦
        let q : get_piece_size t piece ≡ none = rw (v.ready, piece_num_lem, l) in
        absurd (some≢none (sym e ∙ q))
  ]

  -- In a ready torrent of at least one byte, with pieces and blocks of at least one byte, whose sizes fit the types that they pass through (total size and piece size together below 2^64, piece size and block size together below 2^31) and whose map has as many bits as pieces cover it: of a piece whose size `GetPieceSize` has returned, each block that begins inside it has a size, is not empty, and ends where the next one begins or the piece ends; the number of blocks is the least that covers the piece.
  pub get_block_size_lem :
      (piece block s : ℕ)
      → get_piece_size t piece ≡ some s
      → block * t.block_size < s
      → (z : ℕ) × (k : ℕ) × (get_block_size t piece block ≡ some z)
        × (0 < z)
        × (block * t.block_size + z ≡ min ((block + 1) * t.block_size) s)
        × (get_block_num t piece ≡ some k)
        × ((k - 1) * t.block_size < s)
        × (s ≤ k * t.block_size)
  unfolding get_block_size get_block_num
  get_block_size_lem piece block s e h =
      let (inside, le) = get_piece_size-le piece s e in
      let (k, low, high, pos) = parts s t.block_size v.blocked (omega arith) in
      let num : calc_full_mult s t.block_size ≡ some k =
        calc_full_mult_lem s t.block_size k v.blocked (omega (arith, v.fits_int)) low high in
      let b : block < k = mul_lt block k t.block_size (omega arith) in
      elim (Bool-cases (ltb (block + 1) k)) [
        | inl f ↦
            let g = piece_end block k t.block_size s b (ground arith) low in
            (
              t.block_size,
              k,
              rw (e, v.ready, lt→ltb _ _ inside, num, lt→ltb _ _ b, f),
              v.blocked,
              omega arith,
              rw (e, v.ready, lt→leb _ _ inside, num),
              low,
              high,
            )
        | inr f ↦
            let q : k - 1 ≡ block = ground arith in
            let r : k ≡ block + 1 = omega arith in
            let top : s ≤ (block + 1) * t.block_size = rw r at high in
            (
              s - block * t.block_size,
              k,
              rw (e, v.ready, lt→ltb _ _ inside, num, lt→ltb _ _ b, f)
                  (last_block_lem s t.block_size block v.blocked h (omega arith)),
              omega arith,
              omega arith,
              rw (e, v.ready, lt→leb _ _ inside, num),
              low,
              high,
            )
      ]

  -- `GetLastBlockSize` always aborts: it asks for the block behind the last one, which `GetBlockSize` asserts not to be.
  pub get_last_block_size_aborts :
      (piece : ℕ) → piece < length t.piece_map → get_last_block_size t piece ≡ none
  unfolding get_last_block_size get_block_num get_block_size
  get_last_block_size_aborts piece h =
      let (s, e, pos, ends) = get_piece_size_lem piece h in
      let (_, le) = get_piece_size-le piece s e in
      let (k, low, high, _) = parts s t.block_size v.blocked pos in
      let num : calc_full_mult s t.block_size ≡ some k =
        calc_full_mult_lem s t.block_size k v.blocked (omega (arith, v.fits_int)) low high in
      let small : k < 2 ^ 31 =
        small_count k t.block_size s v.blocked low (omega (arith, v.fits_int)) in
      let int : to_int k ≡ some k = to_int_small k small in
      rw (e, num, v.ready, lt→leb _ _ h, lt→ltb _ _ h, int, ltb_self k)

  -- A piece has at least one block, and fewer than an `int` can count.
  pub get_block_num_lem :
      (piece : ℕ)
      → piece < length t.piece_map
      → (k : ℕ) × (get_block_num t piece ≡ some k) × (0 < k) × (k < 2 ^ 31)
  unfolding get_block_num
  get_block_num_lem piece h =
      let (s, e, pos, ends) = get_piece_size_lem piece h in
      let (_, le) = get_piece_size-le piece s e in
      let (k, low, high, more) = parts s t.block_size v.blocked pos in
      let num : calc_full_mult s t.block_size ≡ some k =
        calc_full_mult_lem s t.block_size k v.blocked (omega (arith, v.fits_int)) low high in
      (
        k,
        rw (e, v.ready, lt→leb _ _ h, num),
        more,
        small_count k t.block_size s v.blocked low (omega (arith, v.fits_int)),
      )

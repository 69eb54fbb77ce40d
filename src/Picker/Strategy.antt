-- ===== src/Picker/Strategy.antt =====
-- rcs/src/frame/piece_priority_strategy.cpp: sequential download, the first piece first.
use native.Mathlib.Nat.{
  div-le_of_le-mul, le-div_iff_mul-le, div-mul-le_self, mul-div_right, zero-div,
}
use resource_cache.Common.{
  ℕ, ◌+◌, ◌-◌, ◌*◌, ◌/◌, ◌%◌, ◌^◌, ◌≤◌, ◌<◌, ◌≡◌, Option, none, some, ltb, ◌>>◌, bc_assert, arith,
  lt→ltb, ap, refl, ◌∙◌,
}

abbrev priority_normal : ℕ
priority_normal = 1

abbrev priority_max : ℕ
priority_max = 7

abbrev u32 : ℕ → ℕ
u32 n = n % 2 ^ 32

-- `a - b` on uint32.
abbrev sub32 : ℕ → ℕ → ℕ
sub32 a b = (a + (2 ^ 32 - b % 2 ^ 32)) % 2 ^ 32

-- `PieceSequentialStrategy(pieces).GetPriority(piece)`; a division by zero stops the process.
unfoldable pub get_priority : ℕ → ℕ → Option ℕ
get_priority pieces piece = do
  bc_assert (ltb 0 (sub32 pieces 1))
  some (
      u32 (
        u32 (sub32 (sub32 pieces piece) 1 * (priority_max - 1 - priority_normal)) / sub32 pieces 1
        + priority_normal))

-- The products and differences, where nothing wraps.
no_wrap :
    (pieces piece : ℕ)
    → 1 < pieces
    → pieces * 5 < 2 ^ 32
    → piece < pieces
    → (sub32 pieces 1 ≡ pieces - 1)
      × (u32 (sub32 (sub32 pieces piece) 1 * (priority_max - 1 - priority_normal))
          ≡ (pieces - piece - 1) * 5)
no_wrap pieces piece h w l =
    let inner : sub32 pieces piece ≡ pieces - piece = omega arith in
    let outer : sub32 (pieces - piece) 1 ≡ pieces - piece - 1 = omega arith in
    (omega arith, rw (inner, outer) (omega arith))

-- The quotient grows with the dividend, and is at most 5.
quotient : (m x y : ℕ) → 0 < m → x ≤ y → y ≤ m → (x * 5 / m ≤ y * 5 / m) × (y * 5 / m ≤ 5)
quotient m x y h l k = (
  (le-div_iff_mul-le h).1 (omega (arith, div-mul-le_self (x * 5) m)),
  div-le_of_le-mul m (omega arith),
)

pub get_priority_lem :
    (pieces piece : ℕ)
    → 1 < pieces
    → pieces * 5 < 2 ^ 32
    → piece < pieces
    → get_priority pieces piece ≡ some ((pieces - piece - 1) * 5 / (pieces - 1) + 1)
unfolding get_priority
get_priority_lem pieces piece h w l =
    let (minus, times) = no_wrap pieces piece h w l in
    let (_, le) =
      quotient (pieces - 1) 0 (pieces - piece - 1) (omega arith) (omega arith) (omega arith) in
    rw (minus, times, lt→ltb 0 (pieces - 1) (omega arith)) (ap some (omega arith))

-- With two pieces or more and no overflow, every piece has a priority from 1 to 6, and an earlier piece has none lower than a later one; the first piece has 6 and the last one 1.
pub get_priority_bounds :
    (pieces a b : ℕ)
    → 1 < pieces
    → pieces * 5 < 2 ^ 32
    → a ≤ b
    → b < pieces
    → (p : ℕ) × (q : ℕ) × (get_priority pieces a ≡ some p)
      × (get_priority pieces b ≡ some q)
      × (1 ≤ q)
      × (q ≤ p)
      × (p ≤ 6)
      × (get_priority pieces 0 ≡ some 6)
      × (get_priority pieces (pieces - 1) ≡ some 1)
get_priority_bounds pieces a b h w l k =
    let (mono, top) =
      quotient (pieces - 1) (pieces - b - 1) (pieces - a - 1) (omega arith) (omega arith)
        (omega arith) in
    (
      _,
      _,
      get_priority_lem pieces a h w (omega arith),
      get_priority_lem pieces b h w k,
      omega arith,
      omega arith,
      omega arith,
      get_priority_lem pieces 0 h w (omega arith) ∙ ap some (first_six pieces h),
      get_priority_lem pieces (pieces - 1) h w (omega arith) ∙ ap some (last_one pieces h),
    )
  where
    first_six : (m : ℕ) → 1 < m → (m - 0 - 1) * 5 / (m - 1) + 1 ≡ 6
    first_six m h =
        let q : m - 0 - 1 ≡ m - 1 = omega arith in rw (q, mul-div_right 5 {m = m - 1} (omega arith))

    last_one : (m : ℕ) → 1 < m → (m - (m - 1) - 1) * 5 / (m - 1) + 1 ≡ 1
    last_one m h = let q : (m - (m - 1) - 1) * 5 ≡ 0 = omega arith in rw (q, zero-div (m - 1))

-- A torrent of one piece has no priority to give: the code divides by zero.
pub get_priority_single : (piece : ℕ) → get_priority 1 piece ≡ none
unfolding get_priority
get_priority_single piece = refl

-- ===== src/Bencode/Lexical.antt =====
-- `boost::lexical_cast` between `size_type` and `std::string`, of which the code relies on these laws.
use resource_cache.Common.{ℕ, ◌<◌, ◌≤◌, ◌≡◌, Option, some, List, [], ◌∷◌, length}
use resource_cache.Bencode.Entry.{ℤ, pos, IsInt64}

abbrev pub AllDigits : List ℕ → Type 0
AllDigits [] = Unit
AllDigits (c ∷ cs) = (48 ≤ c) × (c ≤ 57) × AllDigits cs

-- Digits and the sign.
abbrev pub AllNumeric : List ℕ → Type 0
AllNumeric [] = Unit
AllNumeric (c ∷ cs) = (45 ≤ c) × (c ≤ 57) × AllNumeric cs

pub record Lexical : Type 0 where
  pub print : ℤ → List ℕ
  pub read : List ℕ → Option ℤ
  -- Reading gives back an integer that was printed, if it fits.
  pub read_print : (n : ℤ) → IsInt64 n → read (print n) ≡ some n
  -- An integer prints as digits, with a sign if it is negative, and never as nothing.
  pub digits : (n : ℕ) → AllDigits (print (pos n))
  pub numeric : (n : ℤ) → AllNumeric (print n)
  pub printed : (n : ℤ) → 0 < length (print n)

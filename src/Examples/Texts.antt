-- ===== src/Examples/Texts.antt =====
-- Concrete texts of entries, under a `boost::lexical_cast` that prints in the unary system.
use resource_cache.Common.{
  refl, ℕ, zero, suc, ◌<◌, ◌≡◌, ◌≢◌, ap, Option, none, some, List, [], ◌∷◌, ◌++◌, length, replicate,
  ◌==◌, if◌then◌else◌, arith,
}
use resource_cache.Bencode.Entry.{
  ℤ, pos, negsuc, BencodeEntry, integer, text, list, dictionary, no_entries, entry, no_items, item,
}
use resource_cache.Bencode.Lexical.{Lexical, AllDigits, AllNumeric}
use resource_cache.Bencode.Encode.{bencode}
use resource_cache.Common.Results.{ok, out_of_fuel}
use resource_cache.Bencode.Decode.{bdecode}
use resource_cache.Bencode.Printed.{IsEncodable}
use resource_cache.Bencode.RoundTrip.{bdecode-bencode}
use resource_cache.Bencode.Ends.{bdecode-ends}

-- As many ones as the number, and a zero.
abbrev ones : ℕ → List ℕ
ones n = replicate n b'1' ++ b'0' ∷ []

abbrev count : List ℕ → ℕ
count [] = 0
count (c ∷ cs) = let n = count cs in if c == b'1' then suc n else n

abbrev print_unary : ℤ → List ℕ
print_unary (pos n) = ones n
print_unary (negsuc n) = b'-' ∷ ones n

abbrev read_unary : List ℕ → Option ℤ
read_unary [] = none
read_unary (c ∷ cs) = some (if c == b'-' then negsuc (count cs) else pos (count (c ∷ cs)))

count-ones : (n : ℕ) → count (ones n) ≡ n
count-ones zero = refl
count-ones (suc n) = ap suc (count-ones n)

ones-AllDigits : (n : ℕ) → AllDigits (ones n)
ones-AllDigits zero = (omega arith, omega arith, tt)
ones-AllDigits (suc n) = (omega arith, omega arith, ones-AllDigits n)

ones-AllNumeric : (n : ℕ) → AllNumeric (ones n)
ones-AllNumeric zero = (omega arith, omega arith, tt)
ones-AllNumeric (suc n) = (omega arith, omega arith, ones-AllNumeric n)

read_unary-print_unary : (n : ℤ) → read_unary (print_unary n) ≡ some n
read_unary-print_unary (pos zero) = refl
read_unary-print_unary (pos (suc n)) = ap (λ k. some (pos (suc k))) (count-ones n)
read_unary-print_unary (negsuc n) = ap (λ k. some (negsuc k)) (count-ones n)

numeric : (n : ℤ) → AllNumeric (print_unary n)
numeric (pos n) = ones-AllNumeric n
numeric (negsuc n) = (omega arith, omega arith, ones-AllNumeric n)

printed : (n : ℤ) → 0 < length (print_unary n)
printed (pos zero) = omega arith
printed (pos (suc n)) = omega arith
printed (negsuc n) = omega arith

abbrev unary : Lexical
unary = record {
  print = print_unary;
  read = read_unary;
  read_print = λ n h. read_unary-print_unary n;
  digits = ones-AllDigits;
  numeric = numeric;
  printed = printed;
}

-- {"a": [1, "b"], "ab": -2}
abbrev sample : BencodeEntry
sample = dictionary (
    item (b'a' ∷ []) (list (entry (integer (pos 1)) (entry (text (b'b' ∷ [])) no_entries)))
      (item (b'a' ∷ b'b' ∷ []) (integer (negsuc 1)) no_items))

sample-IsEncodable : IsEncodable sample
unfolding IsEncodable
sample-IsEncodable =
    (omega arith, (omega arith, (omega arith, tt)), (refl, tt), (omega arith, omega arith, tt, tt))

bdecode-bencode_example : bdecode unary (bencode unary sample) ≡ ok sample
bdecode-bencode_example = bdecode-bencode unary sample sample-IsEncodable

bdecode-ends_example : bdecode unary (b'd' ∷ b'i' ∷ []) ≢ out_of_fuel
bdecode-ends_example = bdecode-ends unary (b'd' ∷ b'i' ∷ [])

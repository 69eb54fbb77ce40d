-- ===== src/Bencode/Decode.antt =====
-- pub/bencode.cpp: `Bdecode`, by recursive descent.
-- The buffer is what is left of the text. Past the end the code reads the NUL of `c_str`, which is no
-- letter of the format, and then fails an assertion in `BdecodeInteger`.
use resource_cache.Common.{
  ℕ, zero, suc, ◌+◌, ◌*◌, Bool, false, Option, none, some, List, [], ◌∷◌, length, ◌==◌,
  if◌then◌else◌,
}
use resource_cache.Common.Results.{Result, ok, failed, out_of_fuel, ◌>>=◌, of_option}
use resource_cache.Bencode.Entry.{
  ℤ, pos, negsuc, BencodeEntry, Entries, Items, integer, text, list, dictionary, undefined,
  no_entries, entry, no_items, insert,
}
use resource_cache.Bencode.Lexical.{Lexical}

-- `std::find`: what stands before the first `c`, and what stands after it.
unfoldable pub find : ℕ → List ℕ → Option (List ℕ × List ℕ)
find c [] = none
find c (x ∷ xs) =
    let rest = find c xs in
    if x == c then some ([], xs) else (elim rest [ none ↦ none | some (a, b) ↦ some (x ∷ a, b) ])

-- The first `n` bytes and the others, if there are as many.
unfoldable pub split : ℕ → List ℕ → Option (List ℕ × List ℕ)
split zero xs = some ([], xs)
split (suc n) [] = none
split (suc n) (x ∷ xs) = elim (split n xs) [ none ↦ none | some (a, b) ↦ some (x ∷ a, b) ]

-- A negative size passes the assertion, and then no string can be made of it.
unfoldable pub bdecode_string : ℤ → List ℕ → Result (List ℕ × List ℕ)
bdecode_string (pos n) ts = of_option (split n ts)
bdecode_string (negsuc n) ts = failed

-- `Bdecode(interval).String()`: an undefined entry becomes an empty string.
unfoldable pub string_of : BencodeEntry → Result (List ℕ)
string_of (text s) = ok s
string_of undefined = ok []
string_of e = failed

abbrev pub starts : ℕ → List ℕ → Bool
starts c [] = false
starts c (x ∷ xs) = x == c

abbrev pub tail : List ℕ → List ℕ
tail [] = []
tail (x ∷ xs) = xs

module _ (lex : Lexical) where
  -- `BdecodeInteger`, which asserts that there is something before `end_of_string`.
  abbrev pub read_number : List ℕ × List ℕ → Result (ℤ × List ℕ)
  read_number ([], rest) = failed
  read_number (c ∷ cs, rest) = do n ← of_option (lex.read (c ∷ cs)); ok (n, rest)

  unfoldable pub bdecode_integer : ℕ → List ℕ → Result (ℤ × List ℕ)
  bdecode_integer end_of_string ts = do found ← of_option (find end_of_string ts); read_number found

  unfoldable pub bdecode_text : List ℕ → Result (BencodeEntry × List ℕ)
  bdecode_text ts = do
    (n, rest) ← bdecode_integer b':' ts
    (s, rest') ← bdecode_string n rest
    ok (text s, rest')

  unfoldable pub bdecode_number : List ℕ → Result (BencodeEntry × List ℕ)
  bdecode_number ts = do (n, rest) ← bdecode_integer b'e' ts; ok (integer n, rest)

  unfoldable mutual
    pub bdecode_entry : ℕ → List ℕ → Result (BencodeEntry × List ℕ)
    bdecode_entry zero ts = out_of_fuel
    bdecode_entry (suc f) [] = failed
    bdecode_entry (suc f) (c ∷ ts) =
        let as_list = (do (es, rest) ← bdecode_entries f ts; ok (list es, rest)) in
        let as_dictionary = (do
          (is, rest) ← bdecode_items f ts no_items
          ok (dictionary is, rest)) in
        if c == b'i'
        then bdecode_number ts
        else if c == b'l'
        then as_list
        else if c == b'd'
        then as_dictionary
        else bdecode_text (c ∷ ts)

    -- The loops, which end before an `e`.
    pub bdecode_entries : ℕ → List ℕ → Result (Entries × List ℕ)
    bdecode_entries zero ts = out_of_fuel
    bdecode_entries (suc f) ts =
        let more = (do
          (e, rest) ← bdecode_entry f ts
          (es, rest') ← bdecode_entries f rest
          ok (entry e es, rest')) in
        if starts b'e' ts then ok (no_entries, tail ts) else more

    pub bdecode_items : ℕ → List ℕ → Items → Result (Items × List ℕ)
    bdecode_items zero ts is = out_of_fuel
    bdecode_items (suc f) ts is =
        let more = (do
          (k, rest) ← bdecode_entry f ts
          key ← string_of k
          (v, rest') ← bdecode_entry f rest
          bdecode_items f rest' (insert key v is)) in
        if starts b'e' ts then ok (is, tail ts) else more

  -- `Bdecode(data)`: what follows the first entry is ignored.
  unfoldable pub bdecode : List ℕ → Result BencodeEntry
  bdecode [] = ok undefined
  bdecode (c ∷ ts) = do (e, rest) ← bdecode_entry (2 * length (c ∷ ts) + 1) (c ∷ ts); ok e

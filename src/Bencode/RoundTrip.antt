-- ===== src/Bencode/RoundTrip.antt =====
-- pub/bencode.cpp, pub/inc/bencode_impl.hpp: `Bdecode` gives back what `Bencode` wrote.
use resource_cache.Common.{
  refl, ℕ, zero, suc, ◌+◌, ◌*◌, ◌<◌, ◌^◌, ◌≡◌, false, some, List, [], ◌∷◌, ◌++◌, length, ◌==◌,
  arith, ◌∙◌,
}
use resource_cache.Bencode.Entry.{
  ℤ, pos, IsInt64, BencodeEntry, Entries, Items, integer, text, list, dictionary, undefined,
  no_entries, entry, no_items, item,
}
use resource_cache.Bencode.Lexical.{Lexical, AllDigits, AllNumeric}
use resource_cache.Bencode.Encode.{bencode}
use resource_cache.Common.Results.{ok}
use resource_cache.Bencode.Decode.{
  find, split, starts, bdecode_string, string_of, read_number, bdecode_integer, bdecode_text,
  bdecode_number, bdecode_entry, bdecode_entries, bdecode_items, bdecode,
}
use resource_cache.Bencode.Printed.{
  IsEncodable, AreEncodable, ItemsEncodable, put_text, put_entry, put_entries, put_items,
  bencode-put, length-put_text, length-put_entry,
}
use resource_cache.Bencode.Dictionary.{
  Before, append, append-no_items, append_assoc_item, insert_last, Before-append, Before-no_items,
}

split-append : (s rest : List ℕ) → split (length s) (s ++ rest) ≡ some (s, rest)
unfolding split
split-append [] rest = refl
split-append (x ∷ s) rest = rw (split-append s rest) refl

find-append :
    (c : ℕ) (ns rest : List ℕ) → 57 < c → AllNumeric ns → find c (ns ++ c ∷ rest) ≡ some (ns, rest)
unfolding find
find-append c [] rest h a = ground arith
find-append c (x ∷ ns) rest h a = rw (find-append c ns rest h a.2) (ground (arith, a.1))

module _ (lex : Lexical) where
  read_number-print :
      (n : ℤ) (ns rest : List ℕ)
      → lex.read ns ≡ some n
      → 0 < length ns
      → read_number lex (ns, rest) ≡ ok (n, rest)
  read_number-print n [] rest h p = absurd (omega arith)
  read_number-print n (c ∷ ns) rest h p = rw h refl

  bdecode_integer-print :
      (c : ℕ) (n : ℤ) (rest : List ℕ)
      → 57 < c
      → IsInt64 n
      → bdecode_integer lex c (lex.print n ++ c ∷ rest) ≡ ok (n, rest)
  unfolding bdecode_integer
  bdecode_integer-print c n rest h r =
      rw (find-append c (lex.print n) rest h (lex.numeric n))
        (read_number-print n (lex.print n) rest (lex.read_print n r) (lex.printed n))

  bdecode_number-put :
      (n : ℤ) (rest : List ℕ)
      → IsInt64 n
      → bdecode_number lex (lex.print n ++ b'e' ∷ rest) ≡ ok (integer n, rest)
  unfolding bdecode_number
  bdecode_number-put n rest h = rw (bdecode_integer-print b'e' n rest (omega arith) h) refl

  bdecode_text-put :
      (s rest : List ℕ)
      → length s < 2 ^ 63
      → bdecode_text lex (put_text lex s rest) ≡ ok (text s, rest)
  unfolding bdecode_text bdecode_string
  bdecode_text-put s rest h =
      rw
        (
          bdecode_integer-print b':' (pos (length s)) (s ++ rest) (omega arith) h,
          split-append s rest,
        )
        refl

  starts-digits :
      (c : ℕ) (ds xs : List ℕ) → AllDigits ds → 0 < length ds → 57 < c → starts c (ds ++ xs) ≡ false
  starts-digits c [] xs a p h = absurd (omega arith)
  starts-digits c (d ∷ ds) xs a p h = ground (arith, a.1)

  bdecode_entry-digits :
      (f : ℕ) (ds xs : List ℕ)
      → AllDigits ds
      → 0 < length ds
      → bdecode_entry lex (suc f) (ds ++ xs) ≡ bdecode_text lex (ds ++ xs)
  unfolding bdecode_entry
  bdecode_entry-digits f [] xs a p = absurd (omega arith)
  bdecode_entry-digits f (d ∷ ds) xs a p =
      rw (other b'i' (omega arith), other b'l' (omega arith), other b'd' (omega arith)) refl
    where
      other : (c : ℕ) → 57 < c → (d == c) ≡ false
      other c h = ground (arith, a.1)

  bdecode_entry-put_text :
      (f : ℕ) (s rest : List ℕ)
      → length s < 2 ^ 63
      → bdecode_entry lex (suc f) (put_text lex s rest) ≡ ok (text s, rest)
  bdecode_entry-put_text f s rest h =
      bdecode_entry-digits f (lex.print (pos (length s))) _ (lex.digits (length s))
        (lex.printed (pos (length s)))
      ∙ bdecode_text-put s rest h

  starts-put_text : (s rest : List ℕ) → starts b'e' (put_text lex s rest) ≡ false
  starts-put_text s rest =
      starts-digits b'e' (lex.print (pos (length s))) _ (lex.digits (length s))
        (lex.printed (pos (length s))) (omega arith)

  starts-put_entry :
      (e : BencodeEntry) (rest : List ℕ)
      → IsEncodable e
      → starts b'e' (put_entry lex e rest) ≡ false
  unfolding put_entry IsEncodable
  starts-put_entry (integer n) rest h = refl
  starts-put_entry (text s) rest h = starts-put_text s rest
  starts-put_entry (list es) rest h = refl
  starts-put_entry (dictionary is) rest h = refl
  starts-put_entry undefined rest h = elim h [ ]

  mutual
    unfolding bdecode_entry put_entry IsEncodable string_of

    bdecode_entry-put :
        (e : BencodeEntry) (f : ℕ) (rest : List ℕ)
        → IsEncodable e
        → 2 * length (put_entry lex e rest) < f
        → bdecode_entry lex f (put_entry lex e rest) ≡ ok (e, rest)
    bdecode_entry-put e zero rest h l = absurd (omega arith)
    bdecode_entry-put (integer n) (suc f) rest h l = rw (bdecode_number-put n rest h) refl
    bdecode_entry-put (text s) (suc f) rest h l = bdecode_entry-put_text f s rest h
    bdecode_entry-put (list es) (suc f) rest h l =
        rw (bdecode_entries-put es f rest h (omega arith)) refl
    bdecode_entry-put (dictionary is) (suc f) rest h l =
        rw (bdecode_items-put is f no_items rest h (Before-no_items is) (omega arith)) refl
    bdecode_entry-put undefined (suc f) rest h l = elim h [ ]

    bdecode_entries-put :
        (es : Entries) (f : ℕ) (rest : List ℕ)
        → AreEncodable es
        → 2 * length (put_entries lex es (b'e' ∷ rest)) + 1 < f
        → bdecode_entries lex f (put_entries lex es (b'e' ∷ rest)) ≡ ok (es, rest)
    bdecode_entries-put es zero rest h l = absurd (omega arith)
    bdecode_entries-put no_entries (suc f) rest h l = refl
    bdecode_entries-put (entry e es) (suc f) rest h l =
        let more = put_entries lex es (b'e' ∷ rest) in
        rw
          (
            starts-put_entry e more h.0,
            bdecode_entry-put e f more h.0 (omega arith),
            bdecode_entries-put es f rest h.1 (omega (arith, length-put_entry lex e more h.0)),
          )
          refl

    bdecode_items-put :
        (is : Items) (f : ℕ) (acc : Items) (rest : List ℕ)
        → ItemsEncodable is
        → Before acc is
        → 2 * length (put_items lex is (b'e' ∷ rest)) + 1 < f
        → bdecode_items lex f (put_items lex is (b'e' ∷ rest)) acc ≡ ok (append acc is, rest)
    bdecode_items-put is zero acc rest h b l = absurd (omega arith)
    bdecode_items-put no_items (suc f) acc rest h b l = rw (append-no_items acc) refl
    bdecode_items-put (item k v is) (suc zero) acc rest h b l = absurd (omega arith)
    bdecode_items-put (item k v is) (suc (suc f)) acc rest h b l =
        let more = put_items lex is (b'e' ∷ rest) in
        let l' = length-put_text lex k (put_entry lex v more) in
        rw
          (
            starts-put_text k (put_entry lex v more),
            bdecode_entry-put_text f k (put_entry lex v more) h.0,
            bdecode_entry-put v (suc f) more h.1 (omega (arith, l')),
            insert_last k v acc b.0,
            bdecode_items-put is (suc f) (append acc (item k v no_items)) rest h.3
                (Before-append acc k v is b.1 h.2)
                (omega (arith, l', length-put_entry lex v more h.1)),
            append_assoc_item acc k v is,
          )
          refl

  bdecode-whole :
      (ts : List ℕ) (e : BencodeEntry)
      → 0 < length ts
      → bdecode_entry lex (2 * length ts + 1) ts ≡ ok (e, [])
      → bdecode lex ts ≡ ok e
  unfolding bdecode
  bdecode-whole [] e p q = absurd (omega arith)
  bdecode-whole (c ∷ ts) e p q = rw q refl

  -- What `Bencode` writes of an entry whose numbers are in range, whose maps are in order and that
  -- holds no undefined entry is read back by `Bdecode` as that entry, with the fuel that it takes.
  pub bdecode-bencode : (e : BencodeEntry) → IsEncodable e → bdecode lex (bencode lex e) ≡ ok e
  bdecode-bencode e h = rw (bencode-put lex e) (
      bdecode-whole (put_entry lex e []) e (length-put_entry lex e [] h)
        (bdecode_entry-put e _ [] h (omega arith)))

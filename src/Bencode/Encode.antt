-- ===== src/Bencode/Encode.antt =====
-- pub/inc/bencode_impl.hpp: `Bencode` onto a stream, with one function for each overload.
use resource_cache.Common.{ℕ, List, [], ◌∷◌, ◌++◌, length}
use resource_cache.Bencode.Entry.{
  ℤ, pos, BencodeEntry, Entries, Items, integer, text, list, dictionary, undefined, no_entries,
  entry, no_items, item,
}
use resource_cache.Bencode.Lexical.{Lexical}

abbrev pub bencode_char : List ℕ → ℕ → List ℕ
bencode_char stream c = stream ++ c ∷ []

module _ (lex : Lexical) where
  open lex use {print}

  abbrev pub bencode_integer : List ℕ → ℤ → List ℕ
  bencode_integer stream n = bencode_char (bencode_char stream b'i' ++ print n) b'e'

  abbrev pub bencode_text : List ℕ → List ℕ → List ℕ
  bencode_text stream s = bencode_char (stream ++ print (pos (length s))) b':' ++ s

  unfoldable mutual
    pub bencode_entry : List ℕ → BencodeEntry → List ℕ
    bencode_entry stream (integer n) = bencode_integer stream n
    bencode_entry stream (text s) = bencode_text stream s
    bencode_entry stream (list es) =
        bencode_char (bencode_entries (bencode_char stream b'l') es) b'e'
    bencode_entry stream (dictionary is) =
        bencode_char (bencode_items (bencode_char stream b'd') is) b'e'
    bencode_entry stream undefined = stream

    -- The loops over a list and over a map.
    pub bencode_entries : List ℕ → Entries → List ℕ
    bencode_entries stream no_entries = stream
    bencode_entries stream (entry e es) = bencode_entries (bencode_entry stream e) es

    pub bencode_items : List ℕ → Items → List ℕ
    bencode_items stream no_items = stream
    bencode_items stream (item k v is) = bencode_items (bencode_entry (bencode_text stream k) v) is

  -- `Bencode(entry)`.
  unfoldable pub bencode : BencodeEntry → List ℕ
  bencode e = bencode_entry [] e

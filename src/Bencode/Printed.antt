-- ===== src/Bencode/Printed.antt =====
-- pub/inc/bencode_impl.hpp: what `Bencode` writes, as the text of an entry in front of a rest.
use resource_cache.Common.{
  refl, ℕ, ◌<◌, ◌≤◌, ◌^◌, ◌≡◌, List, [], ◌∷◌, ◌++◌, arith, length, length-append, append_assoc,
  append-nil, true, ◌∙◌, sym,
}
use resource_cache.Bencode.Entry.{
  pos, IsInt64, text_less, BencodeEntry, Entries, Items, integer, text, list, dictionary, undefined,
  no_entries, entry, no_items, item,
}
use resource_cache.Bencode.Lexical.{Lexical}
use resource_cache.Bencode.Encode.{bencode_entry, bencode_entries, bencode_items, bencode}

-- Every key stands before `k`, or after it.
abbrev pub AllAbove : List ℕ → Items → Type 0
AllAbove k no_items = Unit
AllAbove k (item k' v rest) = (text_less k k' ≡ true) × AllAbove k rest

-- What a map of the code holds: the keys go up. No entry is undefined, and the numbers are in range.
unfoldable mutual
  pub IsEncodable : BencodeEntry → Type 0
  IsEncodable (integer n) = IsInt64 n
  IsEncodable (text s) = length s < 2 ^ 63
  IsEncodable (list es) = AreEncodable es
  IsEncodable (dictionary is) = ItemsEncodable is
  IsEncodable undefined = ⊥

  pub AreEncodable : Entries → Type 0
  AreEncodable no_entries = Unit
  AreEncodable (entry e es) = IsEncodable e × AreEncodable es

  pub ItemsEncodable : Items → Type 0
  ItemsEncodable no_items = Unit
  ItemsEncodable (item k v rest) =
      (length k < 2 ^ 63) × IsEncodable v × AllAbove k rest × ItemsEncodable rest

module _ (lex : Lexical) where
  abbrev pub put_text : List ℕ → List ℕ → List ℕ
  put_text s rest = lex.print (pos (length s)) ++ b':' ∷ (s ++ rest)

  unfoldable mutual
    pub put_entry : BencodeEntry → List ℕ → List ℕ
    put_entry (integer n) rest = b'i' ∷ (lex.print n ++ b'e' ∷ rest)
    put_entry (text s) rest = put_text s rest
    put_entry (list es) rest = b'l' ∷ put_entries es (b'e' ∷ rest)
    put_entry (dictionary is) rest = b'd' ∷ put_items is (b'e' ∷ rest)
    put_entry undefined rest = rest

    pub put_entries : Entries → List ℕ → List ℕ
    put_entries no_entries rest = rest
    put_entries (entry e es) rest = put_entry e (put_entries es rest)

    pub put_items : Items → List ℕ → List ℕ
    put_items no_items rest = rest
    put_items (item k v is) rest = put_text k (put_entry v (put_items is rest))

  bencode_text-put :
      (s k rest : List ℕ)
      → ((((s ++ lex.print (pos (length k))) ++ b':' ∷ []) ++ k) ++ rest) ≡ s ++ put_text k rest
  bencode_text-put s k rest = simp append_assoc

  mutual
    unfolding bencode_entry put_entry

    bencode_entry-put :
        (e : BencodeEntry) (s rest : List ℕ) → bencode_entry lex s e ++ rest ≡ s ++ put_entry e rest
    bencode_entry-put (integer n) s rest = simp append_assoc
    bencode_entry-put (text k) s rest = bencode_text-put s k rest
    bencode_entry-put (list es) s rest =
        simp (append_assoc, bencode_entries-put es (s ++ b'l' ∷ []) (b'e' ∷ rest))
    bencode_entry-put (dictionary is) s rest =
        simp (append_assoc, bencode_items-put is (s ++ b'd' ∷ []) (b'e' ∷ rest))
    bencode_entry-put undefined s rest = refl

    bencode_entries-put :
        (es : Entries) (s rest : List ℕ)
        → bencode_entries lex s es ++ rest ≡ s ++ put_entries es rest
    bencode_entries-put no_entries s rest = refl
    bencode_entries-put (entry e es) s rest =
        bencode_entries-put es (bencode_entry lex s e) rest
        ∙ bencode_entry-put e s (put_entries es rest)

    bencode_items-put :
        (is : Items) (s rest : List ℕ) → bencode_items lex s is ++ rest ≡ s ++ put_items is rest
    bencode_items-put no_items s rest = refl
    bencode_items-put (item k v is) s rest =
        bencode_items-put is _ rest
        ∙ bencode_entry-put v _ (put_items is rest)
        ∙ bencode_text-put s k (put_entry v (put_items is rest))

  pub bencode-put : (e : BencodeEntry) → bencode lex e ≡ put_entry e []
  unfolding bencode
  bencode-put e = sym (append-nil (bencode_entry lex [] e)) ∙ bencode_entry-put e [] []

  pub length-put_text : (s rest : List ℕ) → length rest < length (put_text s rest)
  length-put_text s rest =
      omega (
        arith,
        length-append (lex.print (pos (length s))) (b':' ∷ (s ++ rest)),
        length-append s rest,
      )

  -- Every entry that is not undefined has a text.
  mutual
    unfolding put_entry IsEncodable

    pub length-put_entry :
        (e : BencodeEntry) (rest : List ℕ) → IsEncodable e → length rest < length (put_entry e rest)
    length-put_entry (integer n) rest h = omega (arith, length-append (lex.print n) (b'e' ∷ rest))
    length-put_entry (text s) rest h = length-put_text s rest
    length-put_entry (list es) rest h = omega (arith, length-put_entries es (b'e' ∷ rest) h)
    length-put_entry (dictionary is) rest h = omega (arith, length-put_items is (b'e' ∷ rest) h)
    length-put_entry undefined rest h = elim h [ ]

    length-put_entries :
        (es : Entries) (rest : List ℕ)
        → AreEncodable es
        → length rest ≤ length (put_entries es rest)
    length-put_entries no_entries rest h = omega arith
    length-put_entries (entry e es) rest h =
        omega (arith, length-put_entry e (put_entries es rest) h.0, length-put_entries es rest h.1)

    length-put_items :
        (is : Items) (rest : List ℕ) → ItemsEncodable is → length rest ≤ length (put_items is rest)
    length-put_items no_items rest h = omega arith
    length-put_items (item k v is) rest h = omega (
      arith,
      length-put_text k (put_entry v (put_items is rest)),
      length-put_entry v (put_items is rest) h.1,
      length-put_items is rest h.3,
    )

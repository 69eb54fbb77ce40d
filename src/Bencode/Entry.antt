-- ===== src/Bencode/Entry.antt =====
-- pub/inc/bencode_entry.hpp: `BencodeEntry`, with `std::list` and `std::map` as lists of their own.
use resource_cache.Common.{
  ℕ, ◌<◌, ◌^◌, Bool, true, false, List, [], ◌∷◌, ltb, ◌==◌, ◌&&◌, ◌||◌, if◌then◌else◌,
}

-- `negsuc n` is -(n + 1).
pub data ℤ : Type 0 where
  pos : ℕ → ℤ
  negsuc : ℕ → ℤ

-- `size_type` is an int64.
abbrev pub IsInt64 : ℤ → Type 0
IsInt64 (pos n) = n < 2 ^ 63
IsInt64 (negsuc n) = n < 2 ^ 63

mutual
  pub data BencodeEntry : Type 0 where
    integer : ℤ → BencodeEntry
    text : List ℕ → BencodeEntry
    list : Entries → BencodeEntry
    dictionary : Items → BencodeEntry
    undefined : BencodeEntry

  pub data Entries : Type 0 where
    no_entries : Entries
    entry : BencodeEntry → Entries → Entries

  pub data Items : Type 0 where
    no_items : Items
    item : List ℕ → BencodeEntry → Items → Items

-- `operator<` of `std::string`.
abbrev pub text_less : List ℕ → List ℕ → Bool
text_less [] [] = false
text_less [] (b ∷ bs) = true
text_less (a ∷ as') [] = false
text_less (a ∷ as') (b ∷ bs) = ltb a b || (a == b && text_less as' bs)

-- `std::map::insert`: in the order of the keys, and a key that is there keeps its value.
unfoldable pub insert : List ℕ → BencodeEntry → Items → Items
insert key value no_items = item key value no_items
insert key value (item k v rest) =
    if text_less key k
    then item key value (item k v rest)
    else if text_less k key
    then item k v (insert key value rest)
    else item k v rest

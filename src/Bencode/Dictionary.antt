-- ===== src/Bencode/Dictionary.antt =====
-- pub/inc/bencode_entry.hpp: the order of the keys, and a map that is filled in that order.
use resource_cache.Common.{refl, ℕ, ◌≡◌, true, false, List, [], ◌∷◌, arith, ap}
use resource_cache.Bencode.Entry.{BencodeEntry, Items, no_items, item, insert, text_less}
use resource_cache.Bencode.Printed.{AllAbove}

text_less-asym : (as' bs : List ℕ) → text_less as' bs ≡ true → text_less bs as' ≡ false
text_less-asym [] [] h = refl
text_less-asym [] (b ∷ bs) h = refl
text_less-asym (a ∷ as') [] h = cc
text_less-asym (a ∷ as') (b ∷ bs) h = ground (arith, text_less-asym as' bs)

-- Every key of `acc` stands before `k`.
abbrev pub AllBelow : Items → List ℕ → Type 0
AllBelow no_items k = Unit
AllBelow (item k' v rest) k = (text_less k' k ≡ true) × AllBelow rest k

-- Every key of `acc` stands before every key of `is`.
abbrev pub Before : Items → Items → Type 0
Before acc no_items = Unit
Before acc (item k v is) = AllBelow acc k × Before acc is

abbrev pub append : Items → Items → Items
append no_items ys = ys
append (item k v xs) ys = item k v (append xs ys)

pub append-no_items : (acc : Items) → append acc no_items ≡ acc
append-no_items no_items = refl
append-no_items (item k v acc) = ap (item k v) (append-no_items acc)

pub append_assoc_item :
    (acc : Items) (k : List ℕ) (v : BencodeEntry) (is : Items)
    → append (append acc (item k v no_items)) is ≡ append acc (item k v is)
append_assoc_item no_items k v is = refl
append_assoc_item (item k' v' acc) k v is = ap (item k' v') (append_assoc_item acc k v is)

pub insert_last :
    (k : List ℕ) (v : BencodeEntry) (acc : Items)
    → AllBelow acc k
    → insert k v acc ≡ append acc (item k v no_items)
unfolding insert
insert_last k v no_items h = refl
insert_last k v (item k' v' acc) h = rw (text_less-asym k' k h.0, h.0, insert_last k v acc h.1) refl

AllBelow-append :
    (acc : Items) (k : List ℕ) (v : BencodeEntry) (k' : List ℕ)
    → AllBelow acc k'
    → text_less k k' ≡ true
    → AllBelow (append acc (item k v no_items)) k'
AllBelow-append no_items k v k' b h = (h, tt)
AllBelow-append (item k₁ v₁ acc) k v k' b h = (b.0, AllBelow-append acc k v k' b.1 h)

pub Before-append :
    (acc : Items) (k : List ℕ) (v : BencodeEntry) (is : Items)
    → Before acc is
    → AllAbove k is
    → Before (append acc (item k v no_items)) is
Before-append acc k v no_items b h = tt
Before-append acc k v (item k' v' is) b h =
    (AllBelow-append acc k v k' b.0 h.0, Before-append acc k v is b.1 h.1)

pub Before-no_items : (is : Items) → Before no_items is
Before-no_items no_items = tt
Before-no_items (item k v is) = (tt, Before-no_items is)

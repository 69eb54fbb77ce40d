-- ===== src/Disk/Held.antt =====
-- rcs/src/frame/disk_io_thread.cpp: what the blocks of a cached piece hold of the piece.
use resource_cache.Common.{
  refl, sym, ap, subst, ◌∙◌, ℕ, zero, suc, ◌+◌, ◌-◌, ◌*◌, ◌≤◌, ◌<◌, ◌≡◌, false, some, List, [], ◌∷◌,
  ◌++◌, length, get_elem?, set, take, drop, leb, ◌==◌, if◌then◌else◌, asserted, arith,
  length-append, length-take, length-drop, drop-drop, drop-take, take_append_drop, take-append,
  append_assoc, le→leb, min,
}
use resource_cache.Disk.Pieces.{CachedBlockEntry, memcpy}
use resource_cache.Disk.ToDisk.{block_bytes, gather}

-- The bytes of a block up to the cursor are the first ones of `bytes`.
pub record HoldsBlock (b : CachedBlockEntry) (bytes : List ℕ) : Type 0 where
  pub sized : b.block_size ≡ length bytes
  pub room : b.block_size ≤ length b.buf
  pub inside : b.cursor ≤ b.block_size
  pub held : take b.cursor b.buf ≡ take b.cursor bytes

-- The blocks cut the bytes from the p-th one on.
abbrev pub Holds : ℕ → List ℕ → ℕ → List CachedBlockEntry → Type 0
Holds block_size bytes p [] = length bytes ≤ p
Holds block_size bytes p (b ∷ bs) =
    HoldsBlock b (take block_size (drop p bytes))
    × (p < length bytes)
    × Holds block_size bytes (p + block_size) bs

abbrev pub count_full : List CachedBlockEntry → ℕ
count_full [] = 0
count_full (b ∷ bs) = (if b.cursor == b.block_size then 1 else 0) + count_full bs

pub count_full-le : (bs : List CachedBlockEntry) → count_full bs ≤ length bs
count_full-le [] = omega arith
count_full-le (b ∷ bs) = ground (arith, count_full-le bs)

pub length-take-min : {A : Type 0} (n : ℕ) (xs : List A) → length (take n xs) ≡ min n (length xs)
length-take-min zero xs = omega arith
length-take-min (suc n) [] = omega arith
length-take-min (suc n) (x ∷ xs) = omega (arith, length-take-min n xs)

pub take_all : {A : Type 0} (n : ℕ) (xs : List A) → length xs ≤ n → take n xs ≡ xs
take_all zero [] h = refl
take_all zero (x ∷ xs) h = absurd (omega arith)
take_all (suc n) [] h = refl
take_all (suc n) (x ∷ xs) h = ap (λ t. x ∷ t) (take_all n xs (omega arith))

pub drop_all : {A : Type 0} (n : ℕ) (xs : List A) → length xs ≤ n → drop n xs ≡ []
drop_all zero [] h = refl
drop_all zero (x ∷ xs) h = absurd (omega arith)
drop_all (suc n) [] h = refl
drop_all (suc n) (x ∷ xs) h = drop_all n xs (omega arith)

pub take-add :
    {A : Type 0} (k n m : ℕ) (xs : List A) → k ≡ n + m → take k xs ≡ take n xs ++ take m (drop n xs)
take-add k zero m xs h = ap (λ j. take j xs) (omega (arith, h))
take-add zero (suc n) m xs h = absurd (omega (arith, h))
take-add (suc k) (suc n) zero [] h = refl
take-add (suc k) (suc n) (suc m) [] h = refl
take-add (suc k) (suc n) m (x ∷ xs) h = ap (λ t. x ∷ t) (take-add k n m xs (omega (arith, h)))

take-take : {A : Type 0} (n m : ℕ) (xs : List A) → n ≤ m → take n (take m xs) ≡ take n xs
take-take zero m xs h = refl
take-take (suc n) zero xs h = absurd (omega arith)
take-take (suc n) (suc m) [] h = refl
take-take (suc n) (suc m) (x ∷ xs) h = ap (λ t. x ∷ t) (take-take n m xs (omega arith))

-- A window inside a front of a list.
pub window :
    {A : Type 0} (k off n : ℕ) (xs : List A)
    → off + n ≤ k
    → take n (drop off (take k xs)) ≡ take n (drop off xs)
window k off n xs le =
    ap (take n) (drop-take k off (k - off) xs (omega arith))
    ∙ take-take n (k - off) (drop off xs) (omega arith)

-- The block that a position lies in.
pub Holds-get_elem? :
    (z : ℕ) (bytes : List ℕ) (p i q : ℕ) (bs : List CachedBlockEntry)
    → Holds z bytes p bs
    → q ≡ p + i * z
    → q < length bytes
    → (b : CachedBlockEntry) × (get_elem? bs i ≡ some b) × HoldsBlock b (take z (drop q bytes))
Holds-get_elem? z bytes p i q [] h e l = absurd (omega arith)
Holds-get_elem? z bytes p zero q (b ∷ bs) h e l =
    let same : p ≡ q = omega arith in
    (b, refl, subst (λ j. HoldsBlock b (take z (drop j bytes))) same h.0)
Holds-get_elem? z bytes p (suc i) q (b ∷ bs) h e l =
    Holds-get_elem? z bytes (p + z) i q bs h.2 (omega arith) l

pub Holds-set :
    (z : ℕ) (bytes : List ℕ) (p i q : ℕ) (bs : List CachedBlockEntry) (b' : CachedBlockEntry)
    → Holds z bytes p bs
    → q ≡ p + i * z
    → HoldsBlock b' (take z (drop q bytes))
    → Holds z bytes p (set bs i b')
Holds-set z bytes p i q [] b' h e l = h
Holds-set z bytes p zero q (b ∷ bs) b' h e l =
    let same : q ≡ p = omega arith in
    (subst (λ j. HoldsBlock b' (take z (drop j bytes))) same l, h.1, h.2)
Holds-set z bytes p (suc i) q (b ∷ bs) b' h e l =
    (h.0, h.1, Holds-set z bytes (p + z) i q bs b' h.2 (omega arith) l)

pub count_full-set :
    (bs : List CachedBlockEntry) (i : ℕ) (b b' : CachedBlockEntry)
    → get_elem? bs i ≡ some b
    → (b.cursor == b.block_size) ≡ false
    → count_full (set bs i b') ≡ (if b'.cursor == b'.block_size then 1 else 0) + count_full bs
count_full-set [] i b b' h e = absurd (cc)
count_full-set (a ∷ bs) zero b b' h e =
    let same : a ≡ b = cc in
    let no_full : (a.cursor == a.block_size) ≡ false =
      subst (λ c. (c.cursor == c.block_size) ≡ false) (sym same) e in
    rw no_full (omega arith)
count_full-set (a ∷ bs) (suc i) b b' h e = let ih = count_full-set bs i b b' h e in omega arith

-- The next bytes of a block, put at its cursor.
pub memcpy-HoldsBlock :
    (b : CachedBlockEntry) (bytes more : List ℕ)
    → HoldsBlock b bytes
    → more ≡ take (length more) (drop b.cursor bytes)
    → b.cursor + length more ≤ length bytes
    → (buf : List ℕ) × (memcpy b.buf b.cursor more ≡ some buf)
      × (b.block_size ≤ length buf)
      × (take (b.cursor + length more) buf ≡ take (b.cursor + length more) bytes)
unfolding memcpy
memcpy-HoldsBlock b bytes more h e l =
    let c = b.cursor in
    let rest = drop (c + length more) b.buf in
    let front : length (take c b.buf) ≡ c = length-take c b.buf (omega arith) in
    let two : length (take c b.buf ++ more) ≡ c + length more =
      omega (arith, length-append (take c b.buf) more) in
    let same : take c b.buf ++ (more ++ rest) ≡ (take c b.buf ++ more) ++ rest =
      sym (append_assoc (take c b.buf) more rest) in
    let whole : length (take c b.buf ++ (more ++ rest)) ≡ length b.buf = omega (
      arith,
      length-append (take c b.buf) (more ++ rest),
      length-append more rest,
      length-drop (c + length more) b.buf,
    ) in
    (
      take c b.buf ++ (more ++ rest),
      asserted (leb (c + length more) (length b.buf)) _ (le→leb _ _ (omega arith)),
      omega arith,
      ap (take (c + length more)) same
          ∙ take-append (c + length more) (take c b.buf ++ more) rest (sym two)
          ∙ ap (λ t. t ++ more) h.held
          ∙ ap (λ t. take c bytes ++ t) e
          ∙ sym (take-add (c + length more) c (length more) bytes refl),
    )

-- Blocks that are all full hold all bytes.
pub gather-Holds :
    (z : ℕ) (bytes : List ℕ) (p : ℕ) (bs : List CachedBlockEntry)
    → Holds z bytes p bs
    → count_full bs ≡ length bs
    → gather bs ≡ some (drop p bytes)
unfolding gather
gather-Holds z bytes p [] h e = ap some (sym (drop_all p bytes h))
gather-Holds z bytes p (b ∷ bs) h e =
    let le = count_full-le bs in
    let full : b.cursor ≡ b.block_size = ground arith in
    let others : count_full bs ≡ length bs = ground arith in
    let ih = gather-Holds z bytes (p + z) bs h.2 others in
    let mine = take z (drop p bytes) in
    let bytes_lem : take b.block_size b.buf ≡ mine =
      subst (λ n. take n b.buf ≡ take n mine) full h.0.held
      ∙ take_all b.block_size mine (omega (arith, h.0.sized)) in
    let got : block_bytes b ≡ some mine =
      asserted (leb b.block_size (length b.buf)) _ (le→leb _ _ h.0.room) ∙ ap some bytes_lem in
    let joined : mine ++ drop (p + z) bytes ≡ drop p bytes =
      ap (λ t. mine ++ t) (sym (drop-drop (p + z) p z bytes refl))
      ∙ take_append_drop z (drop p bytes) in
    rw (got, ih) (ap some joined)

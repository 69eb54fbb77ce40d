-- ===== src/Disk/Containers.antt =====
-- rcs/src/frame/disk_io_thread.cpp: the containers of cached pieces.
use resource_cache.Common.{
  All, subst, refl, sym, ap, ◌∙◌, ℕ, suc, ◌+◌, ◌≤◌, ◌≡◌, true, false, some, List, [], ◌∷◌, length,
  ◌==◌, if_yes, if_no, arith, Bool-cases, inl, inr,
}
use resource_cache.Disk.Pieces.{CachedPieceEntry, is_piece, find_entry, erase_entry, replace_entry}
use resource_cache.Disk.WriteCache.{without_key}

pub is_piece-true :
    (key piece : ℕ) (e : CachedPieceEntry)
    → is_piece key piece e ≡ true
    → (e.key ≡ key) × (e.piece ≡ piece)
is_piece-true key piece e h = (ground arith, ground arith)

pub is_piece_self : (e : CachedPieceEntry) → is_piece e.key e.piece e ≡ true
is_piece_self e = ground arith

some_eq : {a b : CachedPieceEntry} → some a ≡ some b → a ≡ b
some_eq e = cc

module _ (P : CachedPieceEntry → Type 0) where
  pub find_entry-All :
      (key piece : ℕ) (es : List CachedPieceEntry) (e : CachedPieceEntry)
      → find_entry key piece es ≡ some e
      → All P es
      → P e × (e.key ≡ key) × (e.piece ≡ piece)
  unfolding find_entry
  find_entry-All key piece [] e h a = absurd (cc)
  find_entry-All key piece (x ∷ xs) e h a = elim (Bool-cases (is_piece key piece x)) [
    | inl t ↦
        let same : x ≡ e = some_eq (sym (if_yes _ _ _ t) ∙ h) in
        subst (λ y. P y × (y.key ≡ key) × (y.piece ≡ piece)) same
          (let (k, p) = is_piece-true key piece x t in (a.0, k, p))
    | inr f ↦ find_entry-All key piece xs e (sym (if_no _ _ _ f) ∙ h) a.1
  ]

  pub erase_entry-All :
      (key piece : ℕ) (es : List CachedPieceEntry) → All P es → All P (erase_entry key piece es)
  unfolding erase_entry
  erase_entry-All key piece [] a = a
  erase_entry-All key piece (x ∷ xs) a = elim (Bool-cases (is_piece key piece x)) [
    | inl t ↦ rw t a.1
    | inr f ↦ rw f (a.0, erase_entry-All key piece xs a.1)
  ]

  pub replace_entry-All :
      (new : CachedPieceEntry) (es : List CachedPieceEntry)
      → P new
      → All P es
      → All P (replace_entry new es)
  unfolding replace_entry
  replace_entry-All new [] n a = a
  replace_entry-All new (x ∷ xs) n a = elim (Bool-cases (is_piece new.key new.piece x)) [
    | inl t ↦ rw t (n, a.1)
    | inr f ↦ rw f (a.0, replace_entry-All new xs n a.1)
  ]

  pub without_key-All :
      (key : ℕ) (es : List CachedPieceEntry) → All P es → All P (without_key key es)
  without_key-All key [] a = a
  without_key-All key (x ∷ xs) a = elim (Bool-cases (x.key == key)) [
    | inl t ↦ rw t (without_key-All key xs a.1)
    | inr f ↦ rw f (a.0, without_key-All key xs a.1)
  ]

pub length-erase_entry :
    (key piece : ℕ) (es : List CachedPieceEntry) (e : CachedPieceEntry)
    → find_entry key piece es ≡ some e
    → length (erase_entry key piece es) + 1 ≡ length es
unfolding find_entry erase_entry
length-erase_entry key piece [] e h = absurd (cc)
length-erase_entry key piece (x ∷ xs) e h = elim (Bool-cases (is_piece key piece x)) [
  | inl t ↦ rw t (omega arith)
  | inr f ↦ rw f (omega (arith, length-erase_entry key piece xs e (sym (if_no _ _ _ f) ∙ h)))
]

pub length-replace_entry :
    (new : CachedPieceEntry) (es : List CachedPieceEntry)
    → length (replace_entry new es) ≡ length es
unfolding replace_entry
length-replace_entry new [] = refl
length-replace_entry new (x ∷ xs) = elim (Bool-cases (is_piece new.key new.piece x)) [
  | inl t ↦ rw t refl
  | inr f ↦ rw f (ap suc (length-replace_entry new xs))
]

pub length-without_key :
    (key : ℕ) (es : List CachedPieceEntry) → length (without_key key es) ≤ length es
length-without_key key [] = omega arith
length-without_key key (x ∷ xs) = ground (arith, length-without_key key xs)

pub find_entry_same :
    (e e' a : CachedPieceEntry) (es : List CachedPieceEntry)
    → e'.key ≡ e.key
    → e'.piece ≡ e.piece
    → find_entry e.key e.piece es ≡ some a
    → find_entry e'.key e'.piece es ≡ some a
find_entry_same e e' a es k p found =
    ap (λ n. find_entry n e'.piece es) k ∙ ap (λ n. find_entry e.key n es) p ∙ found

pub find_entry_first :
    (e : CachedPieceEntry) (es : List CachedPieceEntry) → find_entry e.key e.piece (e ∷ es) ≡ some e
unfolding find_entry
find_entry_first e es = if_yes _ _ _ (is_piece_self e)

pub erase_entry_first :
    (e : CachedPieceEntry) (es : List CachedPieceEntry) → erase_entry e.key e.piece (e ∷ es) ≡ es
unfolding erase_entry
erase_entry_first e es = if_yes _ _ _ (is_piece_self e)

pub replace_entry_first :
    (new e : CachedPieceEntry) (es : List CachedPieceEntry)
    → is_piece new.key new.piece e ≡ true
    → replace_entry new (e ∷ es) ≡ new ∷ es
unfolding replace_entry
replace_entry_first new e es h = if_yes _ _ _ h

pub replace_entry_other :
    (new e : CachedPieceEntry) (es : List CachedPieceEntry)
    → is_piece new.key new.piece e ≡ false
    → replace_entry new (e ∷ es) ≡ e ∷ replace_entry new es
unfolding replace_entry
replace_entry_other new e es h = if_no _ _ _ h

pub erase-replace_entry :
    (new : CachedPieceEntry) (es : List CachedPieceEntry)
    → erase_entry new.key new.piece (replace_entry new es) ≡ erase_entry new.key new.piece es
unfolding erase_entry replace_entry
erase-replace_entry new [] = refl
erase-replace_entry new (x ∷ xs) = elim (Bool-cases (is_piece new.key new.piece x)) [
  | inl t ↦ rw (t, is_piece_self new) refl
  | inr f ↦ rw (f, f) (ap (λ l. x ∷ l) (erase-replace_entry new xs))
]

pub length-erase_entry-le :
    (key piece : ℕ) (es : List CachedPieceEntry) → length (erase_entry key piece es) ≤ length es
unfolding erase_entry
length-erase_entry-le key piece [] = omega arith
length-erase_entry-le key piece (x ∷ xs) = elim (Bool-cases (is_piece key piece x)) [
  | inl t ↦ rw t (omega arith)
  | inr f ↦ rw f (omega (arith, length-erase_entry-le key piece xs))
]

pub find_entry-key :
    (key piece : ℕ) (es : List CachedPieceEntry) (e : CachedPieceEntry)
    → find_entry key piece es ≡ some e
    → (e.key ≡ key) × (e.piece ≡ piece)
find_entry-key key piece es e h =
    let (_, k, p) = find_entry-All (λ x. x ≡ x) key piece es e h (all_refl es) in (k, p)
  where
    all_refl : (xs : List CachedPieceEntry) → All (λ x. x ≡ x) xs
    all_refl [] = tt
    all_refl (x ∷ xs) = (refl, all_refl xs)

pub replace_entry-nil :
    (new : CachedPieceEntry) (es : List CachedPieceEntry) → replace_entry new es ≡ [] → es ≡ []
replace_entry-nil new [] h = refl
replace_entry-nil new (x ∷ xs) h =
    absurd (omega (arith, ap length h, length-replace_entry new (x ∷ xs)))

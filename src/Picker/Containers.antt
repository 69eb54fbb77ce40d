-- ===== src/Picker/Containers.antt =====
-- The laws of the picker's containers: which numbers they hold, and what holds of their pieces.
use resource_cache.Common.{
  ℕ, ◌+◌, ◌<◌, ◌≡◌, refl, inl, inr, Bool, true, false, none, some, List, [], ◌∷◌, ltb, leb, ◌==◌,
  arith, Bool-cases, Option-cases,
}
pub use resource_cache.Common.{All, All-map, All-append}
use resource_cache.Picker.Pieces.{
  DownloadPieceInfo, FinishedPieceInfo, find_piece, erase_piece, write_piece, insert_waiting,
  place_downloading, insert_downloading,
}

abbrev pub one : Bool → ℕ
one true = 1
one false = 0

-- How often a container holds a number.
abbrev pub occurs : ℕ → List DownloadPieceInfo → ℕ
occurs i [] = 0
occurs i (d ∷ ds) = one (d.piece_index == i) + occurs i ds

abbrev pub occurs_finished : ℕ → List FinishedPieceInfo → ℕ
occurs_finished i [] = 0
occurs_finished i (f ∷ fs) = one (f.piece_index == i) + occurs_finished i fs

pub occurs-insert_waiting :
    (i : ℕ) (d : DownloadPieceInfo) (xs : List DownloadPieceInfo)
    → occurs i (insert_waiting d xs) ≡ one (d.piece_index == i) + occurs i xs
unfolding insert_waiting
occurs-insert_waiting i d [] = refl
occurs-insert_waiting i d (x ∷ xs) = elim (Bool-cases (ltb x.priority d.priority)) [
  | inl e ↦ rw e
  | inr e ↦ rw e (omega (arith, occurs-insert_waiting i d xs))
]

pub occurs-place_downloading :
    (i : ℕ) (d : DownloadPieceInfo) (xs : List DownloadPieceInfo)
    → occurs i (place_downloading d xs) ≡ one (d.piece_index == i) + occurs i xs
unfolding place_downloading
occurs-place_downloading i d [] = refl
occurs-place_downloading i d (x ∷ xs) = elim (Bool-cases (leb x.priority d.priority)) [
  | inl e ↦ rw e
  | inr e ↦ rw e (omega (arith, occurs-place_downloading i d xs))
]

pub find_piece-none :
    (i : ℕ) (xs : List DownloadPieceInfo) → occurs i xs ≡ 0 → find_piece i xs ≡ none
unfolding find_piece
find_piece-none i [] h = refl
find_piece-none i (x ∷ xs) h = ground (arith, find_piece-none i xs)

pub find_piece-none-occurs :
    (i : ℕ) (xs : List DownloadPieceInfo) → find_piece i xs ≡ none → occurs i xs ≡ 0
unfolding find_piece
find_piece-none-occurs i [] h = refl
find_piece-none-occurs i (x ∷ xs) h = ground (arith, find_piece-none-occurs i xs)

-- What is found has the number, and is counted.
pub find_piece-some :
    (i : ℕ) (xs : List DownloadPieceInfo) (d : DownloadPieceInfo)
    → find_piece i xs ≡ some d
    → (d.piece_index ≡ i) × (0 < occurs i xs)
unfolding find_piece
find_piece-some i [] d h = absurd (cc)
find_piece-some i (x ∷ xs) d h = ground (arith, find_piece-some i xs d)

pub insert_downloading_new :
    (d : DownloadPieceInfo) (xs : List DownloadPieceInfo)
    → occurs d.piece_index xs ≡ 0
    → insert_downloading d xs ≡ place_downloading d xs
unfolding insert_downloading
insert_downloading_new d xs h = rw (find_piece-none d.piece_index xs h, insert_downloading)

pub occurs-insert_downloading :
    (i : ℕ) (d : DownloadPieceInfo) (xs : List DownloadPieceInfo)
    → occurs d.piece_index xs ≡ 0
    → occurs i (insert_downloading d xs) ≡ one (d.piece_index == i) + occurs i xs
occurs-insert_downloading i d xs h =
    rw (insert_downloading_new d xs h) (occurs-place_downloading i d xs)

pub occurs-erase_piece :
    (i j : ℕ) (xs : List DownloadPieceInfo)
    → 0 < occurs i xs
    → occurs j (erase_piece i xs) + one (i == j) ≡ occurs j xs
unfolding erase_piece
occurs-erase_piece i j [] h = absurd (omega arith)
occurs-erase_piece i j (x ∷ xs) h = ground (arith, occurs-erase_piece i j xs)

pub occurs-write_piece :
    (i : ℕ) (d : DownloadPieceInfo) (xs : List DownloadPieceInfo)
    → occurs i (write_piece d xs) ≡ occurs i xs
unfolding write_piece
occurs-write_piece i d [] = refl
occurs-write_piece i d (x ∷ xs) = ground (arith, occurs-write_piece i d xs)

pub find_piece-write_piece :
    (d : DownloadPieceInfo) (xs : List DownloadPieceInfo)
    → 0 < occurs d.piece_index xs
    → find_piece d.piece_index (write_piece d xs) ≡ some d
unfolding find_piece write_piece
find_piece-write_piece d [] h = absurd (omega arith)
find_piece-write_piece d (x ∷ xs) h = ground (arith, find_piece-write_piece d xs)

pub erase_piece-write_piece :
    (d : DownloadPieceInfo) (xs : List DownloadPieceInfo)
    → erase_piece d.piece_index (write_piece d xs) ≡ erase_piece d.piece_index xs
unfolding erase_piece write_piece
erase_piece-write_piece d [] = refl
erase_piece-write_piece d (x ∷ xs) = ground (arith, erase_piece-write_piece d xs)

module _ (P : DownloadPieceInfo → Type 0) where
  pub All-insert_waiting :
      (d : DownloadPieceInfo) (xs : List DownloadPieceInfo)
      → P d
      → All P xs
      → All P (insert_waiting d xs)
  unfolding insert_waiting
  All-insert_waiting d [] p ps = (p, tt)
  All-insert_waiting d (x ∷ xs) p ps = elim (Bool-cases (ltb x.priority d.priority)) [
    | inl e ↦ rw e (p, ps)
    | inr e ↦ rw e (ps.0, All-insert_waiting d xs p ps.1)
  ]

  All-place_downloading :
      (d : DownloadPieceInfo) (xs : List DownloadPieceInfo)
      → P d
      → All P xs
      → All P (place_downloading d xs)
  unfolding place_downloading
  All-place_downloading d [] p ps = (p, tt)
  All-place_downloading d (x ∷ xs) p ps = elim (Bool-cases (leb x.priority d.priority)) [
    | inl e ↦ rw e (p, ps)
    | inr e ↦ rw e (ps.0, All-place_downloading d xs p ps.1)
  ]

  pub All-insert_downloading :
      (d : DownloadPieceInfo) (xs : List DownloadPieceInfo)
      → P d
      → All P xs
      → All P (insert_downloading d xs)
  unfolding insert_downloading
  All-insert_downloading d xs p ps = elim (Option-cases (find_piece d.piece_index xs)) [
    | inl e ↦ rw (e, insert_downloading) (All-place_downloading d xs p ps)
    | inr (_, e) ↦ rw (e, insert_downloading) ps
  ]

  pub All-erase_piece : (i : ℕ) (xs : List DownloadPieceInfo) → All P xs → All P (erase_piece i xs)
  unfolding erase_piece
  All-erase_piece i [] ps = tt
  All-erase_piece i (x ∷ xs) ps = elim (Bool-cases (x.piece_index == i)) [
    | inl e ↦ rw e ps.1
    | inr e ↦ rw e (ps.0, All-erase_piece i xs ps.1)
  ]

  pub All-write_piece :
      (d : DownloadPieceInfo) (xs : List DownloadPieceInfo)
      → P d
      → All P xs
      → All P (write_piece d xs)
  unfolding write_piece
  All-write_piece d [] p ps = tt
  All-write_piece d (x ∷ xs) p ps = elim (Bool-cases (x.piece_index == d.piece_index)) [
    | inl e ↦ rw e (p, ps.1)
    | inr e ↦ rw e (ps.0, All-write_piece d xs p ps.1)
  ]

  pub find_piece-All :
      (i : ℕ) (xs : List DownloadPieceInfo) (d : DownloadPieceInfo)
      → find_piece i xs ≡ some d
      → All P xs
      → P d
  unfolding find_piece
  find_piece-All i [] d e ps = absurd (cc)
  find_piece-All i (x ∷ xs) d e ps = elim (Bool-cases (x.piece_index == i)) [
    | inl f ↦ let q : x ≡ d = ground arith in rw (← q) ps.0
    | inr f ↦ find_piece-All i xs d (ground arith) ps.1
  ]

-- ===== src/Picker/Finished.antt =====
-- The laws of the map `finished_pieces_` and of the bitmap of verified pieces.
use resource_cache.Common.{
  ℕ, zero, suc, ◌+◌, ◌≤◌, ◌<◌, ◌≡◌, ◌≢◌, refl, Bool, true, false, Option, none, some, List, [], ◌∷◌,
  ◌==◌, if◌then◌else◌, arith, get_elem?, set, length,
}
use resource_cache.Picker.Pieces.{
  FinishedPieceInfo, find_finished, insert_finished, erase_finished, verify_finished,
}
use resource_cache.Picker.Containers.{one, occurs_finished}

-- What the map says of the hash of a piece; a piece that it lacks is not verified.
abbrev pub verified_of : Option FinishedPieceInfo → Bool
verified_of none = false
verified_of (some f) = f.verified

abbrev pub bit_of : Option Bool → Bool
bit_of none = false
bit_of (some b) = b

abbrev pub count_true : List Bool → ℕ
count_true [] = 0
count_true (b ∷ bs) = one b + count_true bs

pub find_finished-none :
    (i : ℕ) (fs : List FinishedPieceInfo) → occurs_finished i fs ≡ 0 → find_finished i fs ≡ none
unfolding find_finished
find_finished-none i [] h = refl
find_finished-none i (f ∷ fs) h = ground (arith, find_finished-none i fs)

pub find_finished-some :
    (i : ℕ) (fs : List FinishedPieceInfo) (f : FinishedPieceInfo)
    → find_finished i fs ≡ some f
    → 0 < occurs_finished i fs
unfolding find_finished
find_finished-some i [] f h = absurd (cc)
find_finished-some i (g ∷ fs) f h = ground (arith, find_finished-some i fs f)

pub insert_finished_new :
    (f : FinishedPieceInfo) (fs : List FinishedPieceInfo)
    → occurs_finished f.piece_index fs ≡ 0
    → insert_finished f fs ≡ f ∷ fs
unfolding insert_finished
insert_finished_new f fs h = rw (find_finished-none f.piece_index fs h, insert_finished)

pub occurs_finished-erase_finished :
    (i j : ℕ) (fs : List FinishedPieceInfo)
    → 0 < occurs_finished i fs
    → occurs_finished j (erase_finished i fs) + one (i == j) ≡ occurs_finished j fs
unfolding erase_finished
occurs_finished-erase_finished i j [] h = absurd (omega arith)
occurs_finished-erase_finished i j (f ∷ fs) h =
    ground (arith, occurs_finished-erase_finished i j fs)

pub occurs_finished-verify_finished :
    (i j : ℕ) (fs : List FinishedPieceInfo)
    → occurs_finished j (verify_finished i fs) ≡ occurs_finished j fs
unfolding verify_finished
occurs_finished-verify_finished i j [] = refl
occurs_finished-verify_finished i j (f ∷ fs) =
    ground (arith, occurs_finished-verify_finished i j fs)

pub find_finished-verify_finished :
    (i j : ℕ) (fs : List FinishedPieceInfo)
    → 0 < occurs_finished i fs
    → verified_of (find_finished j (verify_finished i fs))
      ≡ (if i == j then true else verified_of (find_finished j fs))
unfolding find_finished verify_finished
find_finished-verify_finished i j [] h = absurd (omega arith)
find_finished-verify_finished i j (f ∷ fs) h = ground (arith, find_finished-verify_finished i j fs)

pub find_finished-erase_finished :
    (i j : ℕ) (fs : List FinishedPieceInfo)
    → i ≢ j
    → find_finished j (erase_finished i fs) ≡ find_finished j fs
unfolding find_finished erase_finished
find_finished-erase_finished i j [] h = refl
find_finished-erase_finished i j (f ∷ fs) h = ground (arith, find_finished-erase_finished i j fs)

pub bit_of-set :
    (bs : List Bool) (i j : ℕ)
    → i < length bs
    → bit_of (get_elem? (set bs i true) j) ≡ (if i == j then true else bit_of (get_elem? bs j))
bit_of-set [] i j h = absurd (omega arith)
bit_of-set (b ∷ bs) zero zero h = refl
bit_of-set (b ∷ bs) zero (suc j) h = ground arith
bit_of-set (b ∷ bs) (suc i) zero h = ground arith
bit_of-set (b ∷ bs) (suc i) (suc j) h = ground (arith, bit_of-set bs i j)

pub count_true-set :
    (bs : List Bool) (i : ℕ)
    → get_elem? bs i ≡ some false
    → count_true (set bs i true) ≡ count_true bs + 1
count_true-set [] i h = absurd (cc)
count_true-set (b ∷ bs) zero h = ground arith
count_true-set (b ∷ bs) (suc i) h = omega (arith, count_true-set bs i h)

pub get_elem?-some : (bs : List Bool) (i : ℕ) {b : Bool} → get_elem? bs i ≡ some b → i < length bs
get_elem?-some [] i h = absurd (cc)
get_elem?-some (b ∷ bs) zero h = omega arith
get_elem?-some (b ∷ bs) (suc i) h = omega (arith, get_elem?-some bs i h)

pub count_true-le : (bs : List Bool) → count_true bs ≤ length bs
count_true-le [] = omega arith
count_true-le (true ∷ bs) = omega (arith, count_true-le bs)
count_true-le (false ∷ bs) = omega (arith, count_true-le bs)

-- ===== src/Picker/Blocks.antt =====
-- What the inner loops of the picker do to the blocks of one piece.
use resource_cache.Common.{
  ℕ, zero, suc, ◌+◌, ◌-◌, ◌≤◌, ◌<◌, ◌≡◌, ◌≢◌, refl, sym, ap, inl, inr, Bool, true, false, some,
  List, [], ◌∷◌, ◌++◌, leb, arith, Bool-cases, get_elem?, length,
}
use resource_cache.Picker.Pieces.{
  PieceBlock, BlockState, waiting, downloading, finished, is_downloading, is_finished,
}
use resource_cache.Picker.Loops.{Picked, pick_waiting_blocks, pick_all_blocks}
use resource_cache.Picker.Containers.{one, All, All-map, All-append}

-- How many blocks are in a state.
abbrev pub count_blocks : (BlockState → Bool) → List BlockState → ℕ
count_blocks test [] = 0
count_blocks test (s ∷ ss) = one (test s) + count_blocks test ss

-- A block picked of the piece `piece`, whose blocks from `b` on are `old`, and `new` afterwards.
abbrev pub IsPick : ℕ → ℕ → List BlockState → List BlockState → PieceBlock → Type 0
IsPick piece b old new pb =
    (pb.piece_index ≡ piece)
    × (b ≤ pb.block_index)
    × (get_elem? old (pb.block_index - b) ≡ some waiting)
    × (get_elem? new (pb.block_index - b) ≡ some downloading)

-- No block stands twice in the list.
abbrev pub AllApart : List PieceBlock → Type 0
AllApart [] = Unit
AllApart (pb ∷ pbs) = All (λ other. pb ≢ other) pbs × AllApart pbs

pub AllApart-append :
    (xs ys : List PieceBlock)
    → AllApart xs
    → AllApart ys
    → All (λ x. All (λ y. x ≢ y) ys) xs
    → AllApart (xs ++ ys)
AllApart-append [] ys a b c = b
AllApart-append (x ∷ xs) ys a b c =
    (All-append (λ y. x ≢ y) xs ys a.0 c.0, AllApart-append xs ys a.1 b c.1)

-- No block waits.
abbrev pub AllTaken : List BlockState → Type 0
AllTaken = All (λ s. s ≢ waiting)

pub get_elem?-AllTaken :
    (bs : List BlockState) (i : ℕ) → AllTaken bs → get_elem? bs i ≢ some waiting
get_elem?-AllTaken [] i a e = cc
get_elem?-AllTaken (s ∷ bs) zero a e = a.0 (cc)
get_elem?-AllTaken (s ∷ bs) (suc i) a e = get_elem?-AllTaken bs i a.1 e

pub record PicksBlocks (piece num b added : ℕ) (blocks : List BlockState)
    (r : Picked (List BlockState)) : Type 0 where
  pub same_length : length r.left ≡ length blocks
  pub same_finished : count_blocks is_finished r.left ≡ count_blocks is_finished blocks
  pub more_downloading :
      count_blocks is_downloading r.left ≡ count_blocks is_downloading blocks + length r.picked
  pub counted : r.added ≡ added + length r.picked
  pub in_bounds : added < num → r.added ≤ num
  pub is_full : added < num → r.full ≡ leb num r.added
  pub picks : All (IsPick piece b blocks r.left) r.picked
  pub apart : AllApart r.picked
  pub taken : r.full ≡ false → AllTaken r.left

next_index : (j b : ℕ) → b + 1 ≤ j → j - b ≡ suc (j - (b + 1))
next_index j b h = omega arith

IsPick-cons :
    (piece b : ℕ) (s s' : BlockState) (old new : List BlockState) (pb : PieceBlock)
    → IsPick piece (b + 1) old new pb
    → IsPick piece b (s ∷ old) (s' ∷ new) pb
IsPick-cons piece b s s' old new pb h =
    let e = next_index pb.block_index b h.1 in (h.0, omega arith, rw e h.2, rw e h.3)

-- The same facts one block earlier, where the block is left alone.
keep_block :
    (piece num b added : ℕ) (s : BlockState) (rest : List BlockState) (r : Picked (List BlockState))
    → s ≢ waiting
    → PicksBlocks piece num (b + 1) added rest r
    → PicksBlocks piece num b added (s ∷ rest) (record r { left = s ∷ r.left })
keep_block piece num b added s rest r n h = record {
  same_length = omega (arith, h.same_length);
  same_finished = omega (arith, h.same_finished);
  more_downloading = omega (arith, h.more_downloading);
  counted = h.counted;
  in_bounds = h.in_bounds;
  is_full = h.is_full;
  picks = All-map _ _ r.picked (IsPick-cons piece b s s rest r.left) h.picks;
  apart = h.apart;
  taken = λ f. (n, h.taken f);
}

-- The same facts one block earlier, where the block is picked and more are wanted.
pick_block :
    (piece num b added : ℕ) (rest : List BlockState) (r : Picked (List BlockState))
    → leb num (added + 1) ≡ false
    → PicksBlocks piece num (b + 1) (added + 1) rest r
    → PicksBlocks piece num b added (waiting ∷ rest) (record {
      picked = record { piece_index = piece; block_index = b } ∷ r.picked;
      left = downloading ∷ r.left;
      added = r.added;
      full = r.full;
    })
pick_block piece num b added rest r e h = record {
  same_length = omega (arith, h.same_length);
  same_finished = omega (arith, h.same_finished);
  more_downloading = omega (arith, h.more_downloading);
  counted = omega (arith, h.counted);
  in_bounds = λ _. h.in_bounds (ground arith);
  is_full = λ _. h.is_full (ground arith);
  picks = (
    (refl, omega arith, rw (zero_diff b), rw (zero_diff b)),
    All-map _ _ r.picked (IsPick-cons piece b waiting downloading rest r.left) h.picks,
  );
  apart = (
    All-map _ _ r.picked (λ pb k e. absurd (omega (arith, k.1, ap (λ x. x.block_index) e))) h.picks,
    h.apart,
  );
  taken = λ f. ((λ e. cc), h.taken f);
}
  where
    zero_diff : (n : ℕ) → n - n ≡ 0
    zero_diff n = omega arith

-- The block is picked and it is enough.
last_block :
    (piece num b added : ℕ) (rest : List BlockState)
    → leb num (added + 1) ≡ true
    → PicksBlocks piece num b added (waiting ∷ rest) (record {
      picked = record { piece_index = piece; block_index = b } ∷ [];
      left = downloading ∷ rest;
      added = added + 1;
      full = true;
    })
last_block piece num b added rest e = record {
  same_length = refl;
  same_finished = refl;
  more_downloading = omega arith;
  counted = omega arith;
  in_bounds = λ h. omega arith;
  is_full = λ _. sym e;
  picks = ((refl, omega arith, rw (zero_diff b), rw (zero_diff b)), tt);
  apart = (tt, tt);
  taken = λ f. absurd (cc);
}
  where
    zero_diff : (n : ℕ) → n - n ≡ 0
    zero_diff n = omega arith

no_block :
    (piece num b added : ℕ)
    → PicksBlocks piece num b added []
        (record { picked = []; left = []; added = added; full = false })
no_block piece num b added = record {
  same_length = refl;
  same_finished = refl;
  more_downloading = refl;
  counted = omega arith;
  in_bounds = λ h. omega arith;
  is_full = λ h. ground arith;
  picks = tt;
  apart = tt;
  taken = λ f. tt;
}

pub pick_waiting_blocks-PicksBlocks :
    (piece num b added : ℕ) (blocks : List BlockState)
    → PicksBlocks piece num b added blocks (pick_waiting_blocks piece num b added blocks)
unfolding pick_waiting_blocks
pick_waiting_blocks-PicksBlocks piece num b added [] = no_block piece num b added
pick_waiting_blocks-PicksBlocks piece num b added (waiting ∷ rest) =
    elim (Bool-cases (leb num (added + 1))) [
      | inl e ↦ rw e (last_block piece num b added rest e)
      | inr e ↦ rw e (
          pick_block piece num b added rest _ e
            (pick_waiting_blocks-PicksBlocks piece num (b + 1) (added + 1) rest))
    ]
pick_waiting_blocks-PicksBlocks piece num b added (downloading ∷ rest) =
    keep_block piece num b added downloading rest _ (λ e. cc)
      (pick_waiting_blocks-PicksBlocks piece num (b + 1) added rest)
pick_waiting_blocks-PicksBlocks piece num b added (finished ∷ rest) =
    keep_block piece num b added finished rest _ (λ e. cc)
      (pick_waiting_blocks-PicksBlocks piece num (b + 1) added rest)

-- Where every block waits, the other inner loop does the same.
pub pick_all_blocks-waiting :
    (piece num b added : ℕ) (blocks : List BlockState)
    → All (λ s. s ≡ waiting) blocks
    → pick_all_blocks piece num b added blocks ≡ pick_waiting_blocks piece num b added blocks
unfolding pick_waiting_blocks pick_all_blocks
pick_all_blocks-waiting piece num b added [] h = refl
pick_all_blocks-waiting piece num b added (s ∷ rest) h =
    rw (h.0, pick_waiting_blocks, pick_all_blocks-waiting piece num (b + 1) (added + 1) rest h.1)

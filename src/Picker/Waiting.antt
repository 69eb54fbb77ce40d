-- ===== src/Picker/Waiting.antt =====
-- What one piece that starts downloading changes in the two containers.
use resource_cache.Common.{
  ℕ, ◌+◌, ◌-◌, ◌≤◌, ◌<◌, ◌≡◌, ◌≢◌, refl, sym, ap, ◌∙◌, inl, inr, Bool, true, false, some, List, [],
  ◌∷◌, leb, ◌==◌, if◌then◌else◌, arith, Bool-cases, get_elem?, length,
}
use resource_cache.Picker.Pieces.{
  PieceBlock, BlockState, waiting, downloading, is_downloading, is_finished, DownloadPieceInfo,
  place_downloading, insert_downloading,
}
use resource_cache.Picker.Loops.{Picked, Containers}
use resource_cache.Picker.Containers.{
  one, All, All-map, occurs, occurs-insert_downloading, insert_downloading_new,
  All-insert_downloading,
}
use resource_cache.Picker.Blocks.{count_blocks, AllApart, AllTaken, IsPick, PicksBlocks}
use resource_cache.Picker.BlockStates.{
  block_state, block_state-here, block_state-absent, block_state-cons, IsActive, waits_behind,
  total_downloading,
}

-- A waiting piece has blocks, and all of them wait.
abbrev pub IsFresh : DownloadPieceInfo → Type 0
IsFresh d = (d.finished_blocks ≡ 0) × All (λ s. s ≡ waiting) d.blocks × (0 < length d.blocks)

count_waiting :
    (test : BlockState → Bool) (bs : List BlockState)
    → test waiting ≡ false
    → All (λ s. s ≡ waiting) bs
    → count_blocks test bs ≡ 0
count_waiting test [] e h = refl
count_waiting test (s ∷ bs) e h = rw (h.0, e) (omega (arith, count_waiting test bs e h.1))

block_state-place :
    (d : DownloadPieceInfo) (xs : List DownloadPieceInfo) (pb : PieceBlock)
    → occurs d.piece_index xs ≡ 0
    → block_state (place_downloading d xs) pb ≡ (
        if d.piece_index == pb.piece_index
        then get_elem? d.blocks pb.block_index
        else block_state xs pb)
unfolding place_downloading
block_state-place d [] pb o = block_state-cons d [] pb
block_state-place d (x ∷ xs) pb o = elim (Bool-cases (leb x.priority d.priority)) [
  | inl e ↦ rw e (block_state-cons d (x ∷ xs) pb)
  | inr e ↦ rw e (
      block_state-cons x (place_downloading d xs) pb
      ∙ ground (arith, block_state-place d xs pb, block_state-cons x xs pb))
]

block_state-insert :
    (d : DownloadPieceInfo) (xs : List DownloadPieceInfo) (pb : PieceBlock)
    → occurs d.piece_index xs ≡ 0
    → block_state (insert_downloading d xs) pb ≡ (
        if d.piece_index == pb.piece_index
        then get_elem? d.blocks pb.block_index
        else block_state xs pb)
block_state-insert d xs pb o = rw (insert_downloading_new d xs o) (block_state-place d xs pb o)

total-place :
    (d : DownloadPieceInfo) (xs : List DownloadPieceInfo)
    → total_downloading (place_downloading d xs)
      ≡ count_blocks is_downloading d.blocks + total_downloading xs
unfolding place_downloading
total-place d [] = refl
total-place d (x ∷ xs) = elim (Bool-cases (leb x.priority d.priority)) [
  | inl e ↦ rw e
  | inr e ↦ rw e (omega (arith, total-place d xs))
]

-- A block of a piece that the filter admits, which waited in `ws` and is being downloaded in `ds`.
abbrev pub IsStarted :
    List Bool → List DownloadPieceInfo → List DownloadPieceInfo → PieceBlock → Type 0
IsStarted filter ws ds pb =
    (get_elem? filter pb.piece_index ≡ some true)
    × (block_state ws pb ≡ some waiting)
    × (block_state ds pb ≡ some downloading)

pub record StartsPieces (filter : List Bool) (num added : ℕ) (ds ws : List DownloadPieceInfo)
    (q : Picked Containers) : Type 0 where
  pub same_numbers :
      (i : ℕ)
      → occurs i q.left.waiting_pieces + occurs i q.left.downloading_pieces
        ≡ occurs i ws + occurs i ds
  pub still_fresh : All IsFresh q.left.waiting_pieces
  pub still_active : All IsActive q.left.downloading_pieces
  pub more_downloading :
      total_downloading q.left.downloading_pieces ≡ total_downloading ds + length q.picked
  pub counted : q.added ≡ added + length q.picked
  pub in_bounds : q.added ≤ num
  pub kept :
      (pb : PieceBlock) (s : BlockState)
      → block_state ds pb ≡ some s
      → block_state q.left.downloading_pieces pb ≡ some s
  pub picks : All (IsStarted filter ws q.left.downloading_pieces) q.picked
  pub apart : AllApart q.picked
  pub taken :
      q.added < num
      → (pb : PieceBlock) → get_elem? filter pb.piece_index ≡ some true
      → block_state q.left.waiting_pieces pb ≢ some waiting
  pub waited_before :
      q.added < num
      → (pb : PieceBlock) → block_state q.left.downloading_pieces pb ≡ some waiting
      → block_state ds pb ≡ some waiting

-- What the move of one piece does, with the blocks `picked` being downloaded.
pub record StartsOne (filter : List Bool) (w : DownloadPieceInfo)
    (ws ds ds' : List DownloadPieceInfo) (picked : List PieceBlock) : Type 0 where
  pub one_number : (i : ℕ) → occurs i ds' ≡ one (w.piece_index == i) + occurs i ds
  pub one_active : All IsActive ds'
  pub one_downloading : total_downloading ds' ≡ total_downloading ds + length picked
  pub one_kept :
      (pb : PieceBlock) (s : BlockState) → block_state ds pb ≡ some s → block_state ds' pb ≡ some s
  pub one_picks : All (IsStarted filter (w ∷ ws) ds') picked
  pub one_apart : AllApart picked
  pub one_piece : All (λ pb. pb.piece_index ≡ w.piece_index) picked

insert_kept :
    (d : DownloadPieceInfo) (ds : List DownloadPieceInfo) (pb : PieceBlock) (s : BlockState)
    → occurs d.piece_index ds ≡ 0
    → block_state ds pb ≡ some s
    → block_state (insert_downloading d ds) pb ≡ some s
insert_kept d ds pb s o e =
    let n : (d.piece_index == pb.piece_index) ≡ false =
      differ d.piece_index pb.piece_index
        (λ q. block_state-absent ds pb e (ap (λ i. occurs i ds) (sym q) ∙ o)) in
    block_state-insert d ds pb o ∙ rw n e
  where
    differ : (a b : ℕ) → a ≢ b → (a == b) ≡ false
    differ a b h = ground arith

-- A block that waits after a piece was inserted none of whose blocks waits, waited before.
pub insert_waits :
    (d : DownloadPieceInfo) (ds : List DownloadPieceInfo) (pb : PieceBlock)
    → occurs d.piece_index ds ≡ 0
    → AllTaken d.blocks
    → block_state (insert_downloading d ds) pb ≡ some waiting
    → block_state ds pb ≡ some waiting
insert_waits d ds pb o a e =
    waits_behind d ds pb a (block_state-cons d ds pb ∙ sym (block_state-insert d ds pb o) ∙ e)

IsStarted-pick :
    (filter : List Bool) (w : DownloadPieceInfo) (left : List BlockState)
    (ws ds : List DownloadPieceInfo) (pb : PieceBlock)
    → get_elem? filter w.piece_index ≡ some true
    → occurs w.piece_index ds ≡ 0
    → IsPick w.piece_index 0 w.blocks left pb
    → IsStarted filter (w ∷ ws) (insert_downloading (record w { blocks = left }) ds) pb
IsStarted-pick filter w left ws ds pb f o h =
    let z : pb.block_index - 0 ≡ pb.block_index = omega arith in
    let e : (w.piece_index == pb.piece_index) ≡ true = ground arith in
    (
      rw h.0 f,
      block_state-here w ws pb h.0 ∙ rw z at h.2,
      block_state-insert (record w { blocks = left }) ds pb o ∙ rw e (rw z at h.3),
    )

pub starts_one :
    (filter : List Bool) (num added : ℕ) (w : DownloadPieceInfo) (ws ds : List DownloadPieceInfo)
    (r : Picked (List BlockState))
    → get_elem? filter w.piece_index ≡ some true
    → occurs w.piece_index ds ≡ 0
    → IsFresh w
    → All IsActive ds
    → PicksBlocks w.piece_index num 0 added w.blocks r
    → StartsOne filter w ws ds (insert_downloading (record w { blocks = r.left }) ds) r.picked
starts_one filter num added w ws ds r f o fresh a h =
    let d = record w { blocks = r.left } in
    record {
      one_number = λ i. occurs-insert_downloading i d ds o;
      one_active =
          All-insert_downloading IsActive d ds
            (active_start w r.left fresh h.same_finished h.same_length) a;
      one_downloading = rw (insert_downloading_new d ds o) (
          omega (
            arith,
            total-place d ds,
            h.more_downloading,
            count_waiting is_downloading w.blocks refl fresh.1,
          ));
      one_kept = λ pb s. insert_kept d ds pb s o;
      one_picks = All-map _ _ r.picked (λ pb. IsStarted-pick filter w r.left ws ds pb f o) h.picks;
      one_apart = h.apart;
      one_piece = All-map _ _ r.picked (λ pb k. k.0) h.picks;
    }
  where
    active_start :
        (w : DownloadPieceInfo) (left : List BlockState)
        → IsFresh w
        → count_blocks is_finished left ≡ count_blocks is_finished w.blocks
        → length left ≡ length w.blocks
        → IsActive (record w { blocks = left })
    active_start w left fresh e l =
        (omega (arith, count_waiting is_finished w.blocks refl fresh.1), omega arith)

-- ===== src/Picker/Downloading.antt =====
-- What `PickBlocksFromDownloadingPieces` does to the downloading pieces.
use resource_cache.Common.{
  ℕ, ◌+◌, ◌-◌, ◌≤◌, ◌<◌, ◌≡◌, ◌≢◌, refl, sym, ap, ◌∙◌, inl, inr, Bool, true, false, Option, some,
  List, [], ◌∷◌, leb, arith, Bool-cases, get_elem?, length, length-append,
}
use mathlib.Core.List.{append-nil}
use resource_cache.Picker.Pieces.{PieceBlock, BlockState, waiting, downloading, DownloadPieceInfo}
use resource_cache.Picker.Loops.{
  Picked, pick_waiting_blocks, pick_downloading, skip_piece, join_piece,
}
use resource_cache.Picker.Containers.{All, All-map, All-append, occurs}
use resource_cache.Picker.Blocks.{
  AllApart, AllApart-append, AllTaken, IsPick, PicksBlocks, pick_waiting_blocks-PicksBlocks,
}
use resource_cache.Picker.BlockStates.{
  block_state, IsActive, total_downloading, block_state-here, block_state-there, block_state-absent,
  pieces_apart, waits_behind, not_excluded, get_elem?-below,
}

-- A block of a piece that the filter admits, which waited in `old` and is being downloaded in `new`.
abbrev pub IsPicked :
    List Bool → List DownloadPieceInfo → List DownloadPieceInfo → PieceBlock → Type 0
IsPicked filter old new pb =
    (get_elem? filter pb.piece_index ≡ some true)
    × (block_state old pb ≡ some waiting)
    × (block_state new pb ≡ some downloading)

pub record PicksPieces (filter : List Bool) (num added : ℕ) (ds : List DownloadPieceInfo)
    (q : Picked (List DownloadPieceInfo)) : Type 0 where
  pub same_numbers : (i : ℕ) → occurs i q.left ≡ occurs i ds
  pub still_active : All IsActive q.left
  pub more_downloading : total_downloading q.left ≡ total_downloading ds + length q.picked
  pub counted : q.added ≡ added + length q.picked
  pub in_bounds : q.added ≤ num
  pub picks : All (IsPicked filter ds q.left) q.picked
  pub apart : AllApart q.picked
  pub taken :
      q.added < num
      → (pb : PieceBlock) → get_elem? filter pb.piece_index ≡ some true
      → block_state q.left pb ≢ some waiting

-- A block picked of the first piece.
head_pick :
    (filter : List Bool) (d d' : DownloadPieceInfo) (ds ds' : List DownloadPieceInfo)
    (pb : PieceBlock)
    → get_elem? filter d.piece_index ≡ some true
    → d'.piece_index ≡ d.piece_index
    → IsPick d.piece_index 0 d.blocks d'.blocks pb
    → IsPicked filter (d ∷ ds) (d' ∷ ds') pb
head_pick filter d d' ds ds' pb f e h =
    let z : pb.block_index - 0 ≡ pb.block_index = omega arith in
    (
      rw h.0 f,
      block_state-here d ds pb h.0 ∙ rw z at h.2,
      block_state-here d' ds' pb (h.0 ∙ sym e) ∙ rw z at h.3,
    )

-- A block picked of a later piece.
tail_pick :
    (filter : List Bool) (d d' : DownloadPieceInfo) (ds ds' : List DownloadPieceInfo)
    (pb : PieceBlock)
    → occurs d.piece_index ds ≡ 0
    → d'.piece_index ≡ d.piece_index
    → IsPicked filter ds ds' pb
    → IsPicked filter (d ∷ ds) (d' ∷ ds') pb
tail_pick filter d d' ds ds' pb o e h =
    let n : pb.piece_index ≢ d.piece_index =
      λ q. block_state-absent ds pb h.1 (ap (λ i. occurs i ds) q ∙ o) in
    (h.0, block_state-there d ds pb n ∙ h.1, block_state-there d' ds' pb (λ q. n (q ∙ e)) ∙ h.2)

IsActive-after :
    (d : DownloadPieceInfo) (num b added : ℕ) (r : Picked (List BlockState))
    → PicksBlocks d.piece_index num b added d.blocks r
    → IsActive d
    → IsActive (record d { blocks = r.left })
IsActive-after d num b added r h a = (omega (arith, h.same_finished), omega (arith, h.same_length))

pub Distinct : List DownloadPieceInfo → Type 0
Distinct ds = (i : ℕ) → occurs i ds ≤ 1

distinct_head :
    (d : DownloadPieceInfo) (ds : List DownloadPieceInfo)
    → ((i : ℕ) → occurs i (d ∷ ds) ≤ 1)
    → occurs d.piece_index ds ≡ 0
distinct_head d ds h = ground (arith, h d.piece_index)

distinct_tail :
    (d : DownloadPieceInfo) (ds : List DownloadPieceInfo)
    → ((i : ℕ) → occurs i (d ∷ ds) ≤ 1)
    → (i : ℕ) → occurs i ds ≤ 1
distinct_tail d ds h i = omega (arith, h i)

-- The blocks `r` of the first piece and the blocks `q` of the others, together.
join_pieces :
    (filter : List Bool) (num added : ℕ) (d : DownloadPieceInfo) (ds : List DownloadPieceInfo)
    (r : Picked (List BlockState)) (q : Picked (List DownloadPieceInfo))
    → get_elem? filter d.piece_index ≡ some true
    → occurs d.piece_index ds ≡ 0
    → IsActive d
    → PicksBlocks d.piece_index num 0 added d.blocks r
    → (q.added < num → AllTaken r.left)
    → PicksPieces filter num r.added ds q
    → PicksPieces filter num added (d ∷ ds) (join_piece d r q)
join_pieces filter num added d ds r q f o a h t k = record {
  same_numbers = λ i. omega (arith, k.same_numbers i);
  still_active = (IsActive-after d num 0 added r h a, k.still_active);
  more_downloading =
      omega (arith, h.more_downloading, k.more_downloading, length-append r.picked q.picked);
  counted = omega (arith, h.counted, k.counted, length-append r.picked q.picked);
  in_bounds = k.in_bounds;
  picks =
      All-append _ r.picked q.picked
        (All-map _ _ r.picked
          (λ pb. head_pick filter d (record d { blocks = r.left }) ds q.left pb f refl) h.picks)
        (All-map _ _ q.picked
          (λ pb. tail_pick filter d (record d { blocks = r.left }) ds q.left pb o refl) k.picks);
  apart = AllApart-append r.picked q.picked h.apart k.apart (
      pieces_apart d.piece_index ds _ _ r.picked q.picked o (λ pb p. p.0) (λ pb p. p.1) h.picks
        k.picks);
  taken = λ l pb admitted e.
      k.taken l pb admitted (waits_behind (record d { blocks = r.left }) q.left pb (t l) e);
}

nothing_more :
    (filter : List Bool) (num added : ℕ) (full : Bool) (ds : List DownloadPieceInfo)
    → added ≤ num
    → All IsActive ds
    → (added < num → ds ≡ [])
    → PicksPieces filter num added ds
        (record { picked = []; left = ds; added = added; full = full })
nothing_more filter num added full ds h a n = record {
  same_numbers = λ i. refl;
  still_active = a;
  more_downloading = omega arith;
  counted = omega arith;
  in_bounds = h;
  picks = tt;
  apart = tt;
  taken = λ l pb f e. block_state-absent ds pb e (ap (occurs pb.piece_index) (n l));
}

-- The result of the loop, where the filter covers the pieces.
abbrev pub PicksSome :
    List Bool → ℕ → ℕ → List DownloadPieceInfo → Option (Picked (List DownloadPieceInfo)) → Type 0
PicksSome filter num added ds result =
    (q : Picked (List DownloadPieceInfo)) × (result ≡ some q) × PicksPieces filter num added ds q

skip_pieces :
    (filter : List Bool) (num added : ℕ) (d : DownloadPieceInfo) (ds : List DownloadPieceInfo)
    (q : Picked (List DownloadPieceInfo))
    → get_elem? filter d.piece_index ≡ some false
    → occurs d.piece_index ds ≡ 0
    → IsActive d
    → PicksPieces filter num added ds q
    → PicksPieces filter num added (d ∷ ds) (skip_piece d q)
skip_pieces filter num added d ds q f o a k = record {
  same_numbers = λ i. omega (arith, k.same_numbers i);
  still_active = (a, k.still_active);
  more_downloading = omega (arith, k.more_downloading);
  counted = k.counted;
  in_bounds = k.in_bounds;
  picks = All-map _ _ q.picked (λ pb. tail_pick filter d d ds q.left pb o refl) k.picks;
  apart = k.apart;
  taken = λ l pb admitted e.
      k.taken l pb admitted
        (sym (block_state-there d q.left pb (not_excluded filter d pb f admitted)) ∙ e);
}

full_piece :
    (filter : List Bool) (num added : ℕ) (d : DownloadPieceInfo) (ds : List DownloadPieceInfo)
    (r : Picked (List BlockState))
    → get_elem? filter d.piece_index ≡ some true
    → occurs d.piece_index ds ≡ 0
    → IsActive d
    → All IsActive ds
    → added < num
    → r.full ≡ true
    → PicksBlocks d.piece_index num 0 added d.blocks r
    → PicksPieces filter num added (d ∷ ds) (record {
      picked = r.picked;
      left = record d { blocks = r.left } ∷ ds;
      added = r.added;
      full = true;
    })
full_piece filter num added d ds r f o a as' l g h =
    let enough : num ≤ r.added = is_enough num r.added (sym (h.is_full l) ∙ g) in
    let j =
      join_pieces filter num added d ds r _ f o a h (λ m. absurd (omega (arith, enough, m)))
        (nothing_more filter num r.added true ds (h.in_bounds l) as'
          (λ m. absurd (omega (arith, enough, m)))) in
    rw append-nil at j
  where
    is_enough : (n m : ℕ) → leb n m ≡ true → n ≤ m
    is_enough n m e = ground arith

pub pick_downloading-PicksPieces :
    (filter : List Bool) (num added : ℕ) (ds : List DownloadPieceInfo)
    → added < num
    → All (λ d. d.piece_index < length filter) ds
    → ((i : ℕ) → occurs i ds ≤ 1)
    → All IsActive ds
    → PicksSome filter num added ds (pick_downloading filter num added ds)
unfolding pick_downloading
pick_downloading-PicksPieces filter num added [] l c u a =
    (_, refl, nothing_more filter num added false [] (omega arith) tt (λ l. refl))
pick_downloading-PicksPieces filter num added (d ∷ ds) l c u a =
    let r = pick_waiting_blocks d.piece_index num 0 added d.blocks in
    let h = pick_waiting_blocks-PicksBlocks d.piece_index num 0 added d.blocks in
    let o = distinct_head d ds u in
    let more = λ (n : ℕ) (k : n < num).
      pick_downloading-PicksPieces filter num n ds k c.1 (distinct_tail d ds u) a.1 in
    elim (get_elem?-below filter d.piece_index c.0) [
      | inl e ↦
          let (q, f, k) = more added l in
          (
            skip_piece d q,
            rw (e, pick_downloading, f),
            skip_pieces filter num added d ds q e o a.0 k,
          )
      | inr e ↦ elim (Bool-cases r.full) [
        | inl f ↦
            (_, rw (e, pick_downloading, f), full_piece filter num added d ds r e o a.0 a.1 l f h)
        | inr f ↦
            let (q, g, k) = more r.added (not_full r.full num r.added f (h.is_full l)) in
            (
              join_piece d r q,
              rw (e, pick_downloading, f, g),
              join_pieces filter num added d ds r q e o a.0 h (λ _. h.taken f) k,
            )
      ]
    ]
  where
    not_full : (b : Bool) (m n : ℕ) → b ≡ false → b ≡ leb m n → n < m
    not_full b m n e f = ground arith

-- ===== src/Picker/Starting.antt =====
-- What `PickBlocksFromWaitingPieces` does to the two containers.
use mathlib.Core.List.{append-nil}
use resource_cache.Common.{
  ℕ, ◌+◌, ◌≤◌, ◌<◌, ◌≡◌, refl, sym, ap, ◌∙◌, inl, inr, Bool, true, false, Option, some, List, [],
  ◌∷◌, ◌++◌, leb, ◌==◌, arith, Bool-cases, get_elem?, length, length-append,
}
use resource_cache.Picker.Pieces.{
  PieceBlock, BlockState, waiting, downloading, DownloadPieceInfo, insert_downloading,
}
use resource_cache.Picker.Loops.{Picked, Containers, pick_all_blocks, pick_waiting, skip_waiting}
use resource_cache.Picker.Containers.{one, All, All-map, All-append, occurs}
use resource_cache.Picker.Blocks.{
  AllApart-append, PicksBlocks, pick_waiting_blocks-PicksBlocks, pick_all_blocks-waiting,
}
use resource_cache.Picker.BlockStates.{
  block_state, block_state-there, block_state-absent, IsActive, get_elem?-below, pieces_apart,
  not_excluded,
}
use resource_cache.Picker.Waiting.{
  IsFresh, IsStarted, StartsPieces, StartsOne, insert_waits, starts_one,
}

-- A block picked of a later waiting piece.
later_pick :
    (filter : List Bool) (w : DownloadPieceInfo) (ws ds : List DownloadPieceInfo) (pb : PieceBlock)
    → occurs w.piece_index ws ≡ 0
    → IsStarted filter ws ds pb
    → IsStarted filter (w ∷ ws) ds pb
later_pick filter w ws ds pb o h = (
  h.0,
  block_state-there w ws pb (λ q. block_state-absent ws pb h.1 (ap (λ i. occurs i ws) q ∙ o)) ∙ h.1,
  h.2,
)

kept_pick :
    (filter : List Bool) (ws ds ds' : List DownloadPieceInfo) (pb : PieceBlock)
    → ((pb : PieceBlock) (s : BlockState)
        → block_state ds pb ≡ some s
        → block_state ds' pb ≡ some s)
    → IsStarted filter ws ds pb
    → IsStarted filter ws ds' pb
kept_pick filter ws ds ds' pb keep h = (h.0, h.1, keep pb downloading h.2)

skip_starts :
    (filter : List Bool) (num added : ℕ) (w : DownloadPieceInfo) (ws ds : List DownloadPieceInfo)
    (q : Picked Containers)
    → get_elem? filter w.piece_index ≡ some false
    → occurs w.piece_index ws ≡ 0
    → IsFresh w
    → StartsPieces filter num added ds ws q
    → StartsPieces filter num added ds (w ∷ ws) (skip_waiting w q)
skip_starts filter num added w ws ds q f o fresh k = record {
  same_numbers = λ i. omega (arith, k.same_numbers i);
  still_fresh = (fresh, k.still_fresh);
  still_active = k.still_active;
  more_downloading = k.more_downloading;
  counted = k.counted;
  in_bounds = k.in_bounds;
  kept = k.kept;
  picks =
      All-map _ _ q.picked (λ pb. later_pick filter w ws q.left.downloading_pieces pb o) k.picks;
  apart = k.apart;
  taken = λ l pb admitted e. k.taken l pb admitted (
      sym (block_state-there w q.left.waiting_pieces pb (not_excluded filter w pb f admitted)) ∙ e);
  waited_before = k.waited_before;
}

join_starts :
    (filter : List Bool) (num added : ℕ) (w : DownloadPieceInfo)
    (ws ds ds' : List DownloadPieceInfo) (picked : List PieceBlock) (now : ℕ)
    (q : Picked Containers)
    → occurs w.piece_index ws ≡ 0
    → now ≡ added + length picked
    → StartsOne filter w ws ds ds' picked
    → (q.added < num
        → (pb : PieceBlock) → block_state ds' pb ≡ some waiting
        → block_state ds pb ≡ some waiting)
    → StartsPieces filter num now ds' ws q
    → StartsPieces filter num added ds (w ∷ ws) (record q { picked = picked ++ q.picked })
join_starts filter num added w ws ds ds' picked now q o e h t k = record {
  same_numbers = λ i. omega (arith, k.same_numbers i, h.one_number i);
  still_fresh = k.still_fresh;
  still_active = k.still_active;
  more_downloading =
      omega (arith, h.one_downloading, k.more_downloading, length-append picked q.picked);
  counted = omega (arith, k.counted, length-append picked q.picked);
  in_bounds = k.in_bounds;
  kept = λ pb s z. k.kept pb s (h.one_kept pb s z);
  picks =
      All-append _ picked q.picked
        (All-map _ _ picked
          (λ pb. kept_pick filter (w ∷ ws) ds' q.left.downloading_pieces pb k.kept) h.one_picks)
        (All-map _ _ q.picked (λ pb. later_pick filter w ws q.left.downloading_pieces pb o)
          k.picks);
  apart = AllApart-append picked q.picked h.one_apart k.apart (
      pieces_apart w.piece_index ws _ _ picked q.picked o (λ pb p. p) (λ pb p. p.1) h.one_piece
        k.picks);
  taken = k.taken;
  waited_before = λ l pb s. t l pb (k.waited_before l pb s);
}

no_starts :
    (filter : List Bool) (num added : ℕ) (full : Bool) (ws ds : List DownloadPieceInfo)
    → added ≤ num
    → All IsFresh ws
    → All IsActive ds
    → (added < num → ws ≡ [])
    → StartsPieces filter num added ds ws (record {
      picked = [];
      left = record { waiting_pieces = ws; downloading_pieces = ds };
      added = added;
      full = full;
    })
no_starts filter num added full ws ds h f a n = record {
  same_numbers = λ i. refl;
  still_fresh = f;
  still_active = a;
  more_downloading = omega arith;
  counted = omega arith;
  in_bounds = h;
  kept = λ pb s e. e;
  picks = tt;
  apart = tt;
  taken = λ l pb f e. block_state-absent ws pb e (ap (occurs pb.piece_index) (n l));
  waited_before = λ l pb s. s;
}

-- The result of the loop, where the filter covers the pieces.
abbrev pub StartsSome :
    List Bool
    → ℕ
    → ℕ
    → List DownloadPieceInfo
    → List DownloadPieceInfo
    → Option (Picked Containers)
    → Type 0
StartsSome filter num added ds ws result =
    (q : Picked Containers) × (result ≡ some q) × StartsPieces filter num added ds ws q

-- No number stands twice in the two containers.
abbrev pub Apart : List DownloadPieceInfo → List DownloadPieceInfo → Type 0
Apart ws ds = (i : ℕ) → occurs i ws + occurs i ds ≤ 1

Apart-head :
    (w : DownloadPieceInfo) (ws ds : List DownloadPieceInfo)
    → Apart (w ∷ ws) ds
    → (occurs w.piece_index ws ≡ 0) × (occurs w.piece_index ds ≡ 0)
Apart-head w ws ds u = ground (arith, u w.piece_index)

Apart-skip :
    (w : DownloadPieceInfo) (ws ds : List DownloadPieceInfo) → Apart (w ∷ ws) ds → Apart ws ds
Apart-skip w ws ds u i = omega (arith, u i)

Apart-move :
    (w : DownloadPieceInfo) (ws ds ds' : List DownloadPieceInfo)
    → ((i : ℕ) → occurs i ds' ≡ one (w.piece_index == i) + occurs i ds)
    → Apart (w ∷ ws) ds
    → Apart ws ds'
Apart-move w ws ds ds' e u i = omega (arith, u i, e i)

full_start :
    (filter : List Bool) (num added : ℕ) (w : DownloadPieceInfo)
    (ws ds ds' : List DownloadPieceInfo) (picked : List PieceBlock) (now : ℕ)
    → occurs w.piece_index ws ≡ 0
    → now ≡ added + length picked
    → now ≤ num
    → num ≤ now
    → All IsFresh ws
    → StartsOne filter w ws ds ds' picked
    → StartsPieces filter num added ds (w ∷ ws) (record {
      picked = picked;
      left = record { waiting_pieces = ws; downloading_pieces = ds' };
      added = now;
      full = true;
    })
full_start filter num added w ws ds ds' picked now o e b enough fresh start =
    let j =
      join_starts filter num added w ws ds ds' picked now _ o e start
        (λ l. absurd (omega (arith, enough, l)))
        (no_starts filter num now true ws ds' b fresh start.one_active
          (λ l. absurd (omega (arith, enough, l)))) in
    rw append-nil at j

pub pick_waiting-StartsPieces :
    (filter : List Bool) (num added : ℕ) (ds ws : List DownloadPieceInfo)
    → added < num
    → All (λ d. d.piece_index < length filter) ws
    → Apart ws ds
    → All IsFresh ws
    → All IsActive ds
    → StartsSome filter num added ds ws (pick_waiting filter num added ds ws)
unfolding pick_waiting
pick_waiting-StartsPieces filter num added ds [] l c u f a =
    (_, refl, no_starts filter num added false [] ds (omega arith) tt a (λ l. refl))
pick_waiting-StartsPieces filter num added ds (w ∷ ws) l c u f a =
    elim (get_elem?-below filter w.piece_index c.0) [
      | inl e ↦
          let (q, g, k) =
            pick_waiting-StartsPieces filter num added ds ws l c.1 (Apart-skip w ws ds u) f.1 a in
          (
            skip_waiting w q,
            rw (e, pick_waiting, g),
            skip_starts filter num added w ws ds q e o f.0 k,
          )
      | inr e ↦
          let start = starts_one filter num added w ws ds r e o' f.0 a h in
          elim (Bool-cases (leb num r.added)) [
            | inl g ↦ (
              _,
              rw (e, pick_waiting, g),
              full_start filter num added w ws ds ds' r.picked r.added o h.counted (h.in_bounds l)
                  (ground (arith, g)) f.1 start,
            )
            | inr g ↦
                let (q, m, k) =
                  pick_waiting-StartsPieces filter num r.added ds' ws (ground arith) c.1
                    (Apart-move w ws ds ds' start.one_number u) f.1 start.one_active in
                (
                  record q { picked = r.picked ++ q.picked },
                  rw (e, pick_waiting, g, m),
                  join_starts filter num added w ws ds ds' r.picked r.added q o h.counted start
                      (λ _ pb.
                        insert_waits (record w { blocks = r.left }) ds pb o'
                          (h.taken (h.is_full l ∙ g)))
                      k,
                )
          ]
    ]
  where
    o : occurs w.piece_index ws ≡ 0
    o = (Apart-head w ws ds u).0

    o' : occurs w.piece_index ds ≡ 0
    o' = (Apart-head w ws ds u).1

    r : Picked (List BlockState)
    r = pick_all_blocks w.piece_index num 0 added w.blocks

    h : PicksBlocks w.piece_index num 0 added w.blocks r
    h =
        rw (pick_all_blocks-waiting w.piece_index num 0 added w.blocks f.0.1)
          (pick_waiting_blocks-PicksBlocks w.piece_index num 0 added w.blocks)

    ds' : List DownloadPieceInfo
    ds' = insert_downloading (record w { blocks = r.left }) ds

-- ===== src/Picker/Whole.antt =====
-- What `PickPieces` keeps of the invariant, where it is asked for one piece as its only caller does.
use resource_cache.Common.{
  refl, ℕ, suc, ◌<◌, ◌≡◌, ◌⊎◌, inl, inr, ap, subst, Bool, true, some, List, [], ◌∷◌, map, length,
  arith, ltb, ◌==◌, Bool-cases,
}
use resource_cache.Picker.Pieces.{
  BlockState, downloading, is_finished, DownloadPieceInfo, find_piece,
}
use resource_cache.Picker.Loops.{pick_pieces_loop}
use resource_cache.Picker.State.{PiecePicker, with_containers}
use resource_cache.Picker.Choose.{pick_pieces}
use resource_cache.Picker.Containers.{
  one, All, occurs, occurs-insert_downloading, All-insert_downloading,
}
use resource_cache.Picker.Blocks.{count_blocks}
use resource_cache.Picker.BlockStates.{IsActive}
use resource_cache.Picker.Waiting.{IsFresh}
use resource_cache.Picker.Invariant.{IsValid, with_containers-IsValid, one-le}

-- A piece that a container holds is found.
pub find_piece-occurs :
    (i : ℕ) (ds : List DownloadPieceInfo)
    → 0 < occurs i ds
    → (d : DownloadPieceInfo) × (find_piece i ds ≡ some d)
unfolding find_piece
find_piece-occurs i [] h = absurd (omega arith)
find_piece-occurs i (d ∷ ds) h = elim (Bool-cases (d.piece_index == i)) [
  | inl e ↦ (d, rw e refl)
  | inr e ↦
      let (d', f) = find_piece-occurs i ds (omega (arith, h, ap one e)) in (d', rw (e, f) refl)
]

abbrev all_downloading : List BlockState → List BlockState
all_downloading bs = map (λ _. downloading) bs

count-all_downloading : (bs : List BlockState) → count_blocks is_finished (all_downloading bs) ≡ 0
count-all_downloading [] = refl
count-all_downloading (b ∷ bs) = omega (arith, count-all_downloading bs)

length-all_downloading : (bs : List BlockState) → length (all_downloading bs) ≡ length bs
length-all_downloading [] = refl
length-all_downloading (b ∷ bs) = ap suc (length-all_downloading bs)

-- No piece is chosen, or one, all of whose blocks are being downloaded.
pub record Takes (s s' : PiecePicker) (pieces : List ℕ) : Type 0 where
  pub valid : IsValid s'
  pub same_map : s'.piece_map ≡ s.piece_map
  pub taken :
      (pieces ≡ [])
      ⊎ ((piece : ℕ) × (pieces ≡ piece ∷ []) × (0 < occurs piece s'.downloading_pieces))

pick_loop-Takes :
    (s : PiecePicker) (ws : List DownloadPieceInfo)
    → s.waiting_pieces ≡ ws
    → IsValid s
    → Takes s
        (with_containers s (pick_pieces_loop 1 0 s.downloading_pieces ws).1)
        (pick_pieces_loop 1 0 s.downloading_pieces ws).0
unfolding pick_pieces_loop
pick_loop-Takes s [] e v = record {
  valid = with_containers-IsValid s _ v (λ i. omega (arith, ap (occurs i) e)) tt v.active;
  same_map = refl;
  taken = inl refl;
}
pick_loop-Takes s (w ∷ ws) e v =
    let fresh : All IsFresh (w ∷ ws) = subst (All IsFresh) e v.fresh in
    let d = record w { blocks = all_downloading w.blocks } in
    let once : occurs w.piece_index s.downloading_pieces ≡ 0 =
      alone w.piece_index (w ∷ ws) e (here w ws) in
    let more = λ (i : ℕ). occurs-insert_downloading i d s.downloading_pieces once in
    let self : (w.piece_index == w.piece_index) ≡ true = ground arith in
    record {
      valid =
          with_containers-IsValid s _ v (λ i. omega (arith, ap (occurs i) e, more i)) fresh.1
            (All-insert_downloading IsActive d s.downloading_pieces
              (
                omega (arith, fresh.0.0, count-all_downloading w.blocks),
                omega (arith, fresh.0.0, fresh.0.2, length-all_downloading w.blocks),
              )
              v.active);
      same_map = refl;
      taken = inr (w.piece_index, refl, omega (arith, more w.piece_index, ap one self));
    }
  where
    here : (w : DownloadPieceInfo) (ws : List DownloadPieceInfo) → 0 < occurs w.piece_index (w ∷ ws)
    here w ws = ground arith

    alone :
        (i : ℕ) (ws : List DownloadPieceInfo)
        → s.waiting_pieces ≡ ws
        → 0 < occurs i ws
        → occurs i s.downloading_pieces ≡ 0
    alone i ws e h =
        omega (arith, v.placed i, ap (occurs i) e, h, one-le (ltb i (length s.piece_map)))

-- `PickPieces`, asked for one piece, keeps the invariant and the map and chooses at most one piece,
-- which is then being downloaded.
pub pick_pieces-Takes :
    (s : PiecePicker) (filter : List Bool)
    → IsValid s
    → Takes s (pick_pieces s filter 1).0 (pick_pieces s filter 1).1
unfolding pick_pieces
pick_pieces-Takes s filter v = pick_loop-Takes s s.waiting_pieces refl v

-- ===== src/Picker/Update.antt =====
-- What changing priorities keeps of the invariant.
use resource_cache.Common.{
  ℕ, ◌≤◌, ◌<◌, ◌≡◌, refl, inl, inr, some, ltb, ◌==◌, arith, Bool-cases, Option-cases, length,
}
use resource_cache.Picker.Pieces.{DownloadPieceInfo, find_piece, erase_piece}
use resource_cache.Picker.State.{PiecePicker, with_containers}
use resource_cache.Picker.Choose.{
  should_piece_start_downloading, update_piece_priority, update_waiting, update_downloading,
}
use resource_cache.Picker.Containers.{
  occurs, occurs-insert_waiting, occurs-insert_downloading, occurs-erase_piece, find_piece-some,
  All-insert_waiting, All-insert_downloading, All-erase_piece, find_piece-All,
}
use resource_cache.Picker.BlockStates.{IsActive}
use resource_cache.Picker.Waiting.{IsFresh}
use resource_cache.Picker.Invariant.{IsValid, with_containers-IsValid, one-le}
use resource_cache.Picker.Construct.{fresh-IsActive}

-- A piece that leaves the downloading pieces and comes back in another state.
module _ (s : PiecePicker) (v : IsValid s) where
  downloading_once : (i : ℕ) → occurs i s.downloading_pieces ≤ 1
  downloading_once i = omega (arith, v.placed i, one-le (ltb i (length s.piece_map)))

  update_downloading-IsValid :
      (d : DownloadPieceInfo) (piece priority : ℕ)
      → find_piece piece s.downloading_pieces ≡ some d
      → IsValid (with_containers s (update_downloading s.containers d priority))
  unfolding update_downloading
  update_downloading-IsValid d piece priority e = elim (Bool-cases (d.priority == priority)) [
    | inl f ↦ rw f (with_containers-IsValid s s.containers v (λ i. refl) v.fresh v.active)
    | inr f ↦
        let (number, here) = find_piece-some piece s.downloading_pieces d e in
        let there : 0 < occurs d.piece_index s.downloading_pieces = rw number here in
        let d' = record d { priority = priority } in
        let rest = erase_piece d.piece_index s.downloading_pieces in
        let gone = occurs-erase_piece d.piece_index d.piece_index s.downloading_pieces there in
        let zero_left : occurs d.piece_index rest ≡ 0 =
          ground (arith, gone, downloading_once d.piece_index) in
        rw f (
          with_containers-IsValid s _ v
            (λ i. omega (
              arith,
              occurs-insert_downloading i d' rest zero_left,
              occurs-erase_piece d.piece_index i s.downloading_pieces there,
            ))
            v.fresh
            (All-insert_downloading IsActive d' rest
              (find_piece-All IsActive piece s.downloading_pieces d e v.active)
              (All-erase_piece IsActive d.piece_index s.downloading_pieces v.active)))
  ]

  update_waiting-IsValid :
      (d : DownloadPieceInfo) (piece priority : ℕ)
      → find_piece piece s.waiting_pieces ≡ some d
      → IsValid (with_containers s (update_waiting s.containers d priority))
  unfolding update_waiting
  update_waiting-IsValid d piece priority e = elim (Bool-cases (d.priority == priority)) [
    | inl f ↦ rw f (with_containers-IsValid s s.containers v (λ i. refl) v.fresh v.active)
    | inr f ↦
        let (number, here) = find_piece-some piece s.waiting_pieces d e in
        let there : 0 < occurs d.piece_index s.waiting_pieces = rw number here in
        let d' = record d { priority = priority } in
        let rest = erase_piece d.piece_index s.waiting_pieces in
        let moved = λ (i : ℕ). occurs-erase_piece d.piece_index i s.waiting_pieces there in
        let fresh_d = find_piece-All IsFresh piece s.waiting_pieces d e v.fresh in
        let fresh_rest = All-erase_piece IsFresh d.piece_index s.waiting_pieces v.fresh in
        let absent : occurs d.piece_index s.downloading_pieces ≡ 0 =
          omega (arith, v.placed d.piece_index, one-le (ltb d.piece_index (length s.piece_map))) in
        elim (Bool-cases (should_piece_start_downloading priority s.downloading_pieces)) [
          | inl g ↦
              rw (f, g)
                (with_containers-IsValid s _ v
                  (λ i.
                    omega
                      (arith, occurs-insert_downloading i d' s.downloading_pieces absent, moved i))
                  fresh_rest
                  (All-insert_downloading IsActive d' s.downloading_pieces
                    (fresh-IsActive d fresh_d) v.active))
          | inr g ↦
              rw (f, g)
                (with_containers-IsValid s _ v
                  (λ i. omega (arith, occurs-insert_waiting i d' rest, moved i))
                  (All-insert_waiting IsFresh d' rest fresh_d fresh_rest) v.active)
        ]
  ]

  -- `UpdatePiecePriority`, for any piece and any priority, keeps the invariant of the picker.
  pub update_piece_priority-IsValid :
      (piece priority : ℕ) → IsValid (update_piece_priority s piece priority)
  unfolding update_piece_priority
  update_piece_priority-IsValid piece priority =
      elim (Option-cases (find_piece piece s.downloading_pieces)) [
        | inr (d, e) ↦ rw (e, update_piece_priority) (update_downloading-IsValid d piece priority e)
        | inl e ↦ elim (Option-cases (find_piece piece s.waiting_pieces)) [
          | inr (d, f) ↦
              rw (e, update_piece_priority, f) (update_waiting-IsValid d piece priority f)
          | inl f ↦ rw (e, update_piece_priority, f) v
        ]
      ]

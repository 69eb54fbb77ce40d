-- ===== src/Picker/Reached.antt =====
-- Whatever a picker is told, in whatever order, it keeps its invariant.
use resource_cache.Common.{
  ℕ, ◌≤◌, ◌<◌, ◌≡◌, refl, ap, subst, ◌∙◌, Bool, true, false, Option, some, List, arith, get_elem?,
  length, length-set, inl, inr, Option-cases, >>=-eq-some,
}
use resource_cache.Torrent.{Torrent}
use resource_cache.Picker.Pieces.{PieceBlock, find_piece, find_finished}
use resource_cache.Picker.State.{PiecePicker, TorrentCall, new}
use resource_cache.Picker.Choose.{
  pick_blocks_from_downloading_pieces, pick_blocks_from_waiting_pieces, update_piece_priority,
}
use resource_cache.Picker.Mark.{
  downloading_piece_of, mark_block_failed, mark_block_finished, mark_piece_failed, on_verify_piece,
  fail_to_verify_piece_proc,
}
use resource_cache.Picker.Invariant.{IsValid, downloading_half_lem, waiting_half_lem}
use resource_cache.Picker.Construct.{Workable}
use resource_cache.Picker.Start.{new_lem}
use resource_cache.Picker.Update.{update_piece_priority-IsValid}
use resource_cache.Picker.Marks.{
  downloading_piece_of-some, mark_block_failed_lem, mark_block_finished_lem,
}
use resource_cache.Picker.Verify.{Owns, mark_piece_failed_lem, fail_to_verify_lem, verify_lem}

-- The pickers of a torrent that is there all the time: each step is an operation that met no assertion
-- and held the mutex, so the two halves of `PickBlocks` are two steps, between which others may come. A
-- verification reports on a piece that is not verified yet, and blocks are picked, one at least, with a
-- filter at least as long as the map.
pub data Reached (t : Torrent) : PiecePicker → Type 0 where
  built :
      (s : PiecePicker) (piece_map : List Bool) (calls : List TorrentCall)
      → length piece_map ≡ length t.piece_map
      → new t piece_map ≡ some (s, calls)
      → Reached t s
  picked_downloading :
      (s s' : PiecePicker) (filter : List Bool) (num : ℕ) (blocks : List PieceBlock)
      → Reached t s
      → length s.piece_map ≤ length filter
      → 0 < num
      → pick_blocks_from_downloading_pieces s filter num ≡ some (s', blocks)
      → Reached t s'
  picked_waiting :
      (s s' : PiecePicker) (filter : List Bool) (num : ℕ) (blocks : List PieceBlock)
      → Reached t s
      → length s.piece_map ≤ length filter
      → 0 < num
      → pick_blocks_from_waiting_pieces s filter num ≡ some (s', blocks)
      → Reached t s'
  prioritised :
      (s : PiecePicker) (piece priority : ℕ)
      → Reached t s
      → Reached t (update_piece_priority s piece priority)
  block_failed :
      (s s' : PiecePicker) (block : PieceBlock)
      → Reached t s
      → mark_block_failed s block ≡ some s'
      → Reached t s'
  block_finished :
      (s s' : PiecePicker) (block : PieceBlock) (calls : List TorrentCall)
      → Reached t s
      → mark_block_finished (some t) s block ≡ some (s', calls)
      → Reached t s'
  piece_failed :
      (s s' : PiecePicker) (piece : ℕ)
      → Reached t s
      → mark_piece_failed (some t) s piece ≡ some s'
      → Reached t s'
  verified :
      (s s' : PiecePicker) (ok : Bool) (piece : ℕ) (calls : List TorrentCall)
      → Reached t s
      → get_elem? s.piece_map piece ≡ some false
      → on_verify_piece (some t) s ok piece ≡ some (s', calls)
      → Reached t s'

-- What an operation returns is what its lemma says that it returns.
returned :
    (t : Torrent) {r : Option PiecePicker} (s s' s'' : PiecePicker)
    → Owns t s
    → r ≡ some s'
    → r ≡ some s''
    → IsValid s''
    → length s''.piece_map ≡ length s.piece_map
    → IsValid s' × Owns t s'
returned t s s' s'' o e f v l =
    let q : s'' ≡ s' = ground (arith, e, f) in (subst IsValid q v, subst (Owns t) q (l ∙ o))

returned_with {ℓ} :
    {A : Type ℓ} {r : Option (PiecePicker × A)} (t : Torrent) (s s' s'' : PiecePicker) (a b : A)
    → Owns t s
    → r ≡ some (s', a)
    → r ≡ some (s'', b)
    → IsValid s''
    → length s''.piece_map ≡ length s.piece_map
    → IsValid s' × Owns t s'
returned_with t s s' s'' a b o e f v l =
    let q : s'' ≡ s' = ground (arith, e, f) in (subst IsValid q v, subst (Owns t) q (l ∙ o))

update_piece_priority-same_map :
    (s : PiecePicker) (piece priority : ℕ)
    → (update_piece_priority s piece priority).piece_map ≡ s.piece_map
unfolding update_piece_priority
update_piece_priority-same_map s piece priority =
    elim (Option-cases (find_piece piece s.downloading_pieces)) [
      | inr (d, e) ↦ rw (e, update_piece_priority) refl
      | inl e ↦ elim (Option-cases (find_piece piece s.waiting_pieces)) [
        | inr (d, f) ↦ rw (e, update_piece_priority, f) refl
        | inl f ↦ rw (e, update_piece_priority, f) refl
      ]
    ]

-- For a torrent that is there all the time, whose sizes fit and which has two pieces or more: in every state that a picker of it reaches from its construction on, by steps in any order each of which met no assertion (either half of `PickBlocks`, asked for at least one block with a filter at least as long as the map, changed priorities, marks of blocks and failed pieces, and verifications of pieces that are not verified yet), every piece is in exactly one container, pieces that wait are untouched, pieces being downloaded count their finished blocks and lack some, the map and the counter agree with the verified pieces, and the map has as many bits as the torrent has pieces.
pub Reached-IsValid :
    (t : Torrent) (s : PiecePicker) → Workable t → Reached t s → IsValid s × Owns t s
unfolding mark_block_failed mark_block_finished mark_piece_failed on_verify_piece
    fail_to_verify_piece_proc
Reached-IsValid t _ w (built s piece_map calls l e) =
    let (s', f, v, q) = new_lem t w piece_map l in
    let same : s' ≡ s = ground (arith, e, f) in
    (subst IsValid same v, subst (Owns t) same (ap length q ∙ l))
Reached-IsValid t _ w (picked_downloading s s' filter num blocks h l p e) =
    let (v, o) = Reached-IsValid t s w h in
    let (s'', blocks', f, k, m) = downloading_half_lem s filter v l num p in
    returned_with t s s' s'' blocks blocks' o e f k (ap length m)
Reached-IsValid t _ w (picked_waiting s s' filter num blocks h l p e) =
    let (v, o) = Reached-IsValid t s w h in
    let (s'', blocks', f, k, m) = waiting_half_lem s filter v l num p in
    returned_with t s s' s'' blocks blocks' o e f k (ap length m)
Reached-IsValid t _ w (prioritised s piece priority h) =
    let (v, o) = Reached-IsValid t s w h in
    (
      update_piece_priority-IsValid s v piece priority,
      ap length (update_piece_priority-same_map s piece priority) ∙ o,
    )
Reached-IsValid t _ w (block_failed s s' block h e) =
    let (v, o) = Reached-IsValid t s w h in
    let (d, f, _) = >>=-eq-some (downloading_piece_of s block) _ e in
    let (here, state) = downloading_piece_of-some s block d f in
    let (s'', g, k, _, m) = mark_block_failed_lem s v block d here state in
    returned t s s' s'' o e g k (ap length m)
Reached-IsValid t _ w (block_finished s s' block calls h e) =
    let (v, o) = Reached-IsValid t s w h in
    let (d, f, _) = >>=-eq-some (downloading_piece_of s block) _ e in
    let (here, state) = downloading_piece_of-some s block d f in
    let (s'', g, k, _, m) = mark_block_finished_lem s v block d here state (some t) in
    returned_with t s s' s'' calls _ o e g k (ap length m)
Reached-IsValid t _ w (piece_failed s s' piece h e) =
    let (v, o) = Reached-IsValid t s w h in
    let (d, f, _) = >>=-eq-some (find_piece piece s.downloading_pieces) _ e in
    let (s'', g, k, m) = mark_piece_failed_lem s v t piece d w o f in
    returned t s s' s'' o e g k (ap length m)
Reached-IsValid t _ w (verified s s' true piece calls h b e) =
    let (v, o) = Reached-IsValid t s w h in
    let (d, f, _) = >>=-eq-some (find_finished piece s.finished_pieces) _ e in
    let (s'', g, k, _, m) = verify_lem s v t piece d w o f b in
    returned_with t s s' s'' calls _ o e g k (ap length m ∙ length-set s.piece_map piece true)
Reached-IsValid t _ w (verified s s' false piece calls h b e) =
    let (v, o) = Reached-IsValid t s w h in
    let (s1, f, _) = >>=-eq-some (fail_to_verify_piece_proc (some t) s piece) _ e in
    let (d, f', _) = >>=-eq-some (find_finished piece s.finished_pieces) _ f in
    let (s'', g, k, m, _, _) = fail_to_verify_lem s v t piece d w o f' b in
    returned_with t s s' s'' calls _ o e g k (ap length m)

-- ===== src/Picker/Verify.antt =====
-- What failed pieces and verified hashes keep of the invariant.
use resource_cache.Common.{
  Option, none, some, refl, ℕ, ◌+◌, ◌≤◌, ◌<◌, ◌≡◌, sym, ap, ◌∙◌, inl, inr, true, false, some, [],
  ◌∷◌, List, ltb, ◌==◌, if◌then◌else◌, arith, Bool-cases, Option-cases, get_elem?, set, length,
  length-set,
}
use resource_cache.Torrent
use resource_cache.Torrent.{Torrent}
use resource_cache.Picker.Pieces.{
  DownloadPieceInfo, FinishedPieceInfo, find_piece, insert_waiting, find_finished, erase_finished,
  verify_finished,
}
use resource_cache.Picker.Loops.{Containers}
use resource_cache.Picker.State.{PiecePicker, set_seed, have_piece, with_containers}
use resource_cache.Picker.Choose.{should_piece_start_downloading, is_piece_finished}
use resource_cache.Picker.Mark.{
  requeue_piece, mark_piece_failed, fail_to_verify_piece_proc, on_verify_piece,
}
use resource_cache.Picker.Containers.{
  one, All, occurs, occurs_finished, occurs-insert_waiting, occurs-insert_downloading,
  occurs-erase_piece, find_piece-some, find_piece-none-occurs, find_piece-All, All-insert_waiting,
  All-insert_downloading, All-erase_piece,
}
use resource_cache.Picker.Finished.{
  verified_of, count_true, find_finished-none, find_finished-some, occurs_finished-erase_finished,
  occurs_finished-verify_finished, find_finished-verify_finished, find_finished-erase_finished,
  bit_of-set, count_true-set, get_elem?-some,
}
use resource_cache.Picker.BlockStates.{IsActive}
use resource_cache.Picker.Waiting.{IsFresh}
use resource_cache.Picker.Invariant.{IsValid, with_containers-IsValid, one-le}
use resource_cache.Picker.Construct.{Workable, fresh-IsActive, construct_download_piece_lem}

-- A picker and the torrent that owns it speak of the same pieces.
abbrev pub Owns : Torrent → PiecePicker → Type 0
Owns t s = length s.piece_map ≡ length t.piece_map

is_piece_finished-verified_of :
    (s : PiecePicker) (piece : ℕ)
    → is_piece_finished s piece ≡ verified_of (find_finished piece s.finished_pieces)
unfolding is_piece_finished
is_piece_finished-verified_of s piece = same (find_finished piece s.finished_pieces)
  where
    same :
        (f : Option FinishedPieceInfo)
        → elim f [ none ↦ false | some f ↦ f.verified ] ≡ verified_of f
    same none = refl
    same (some f) = refl

-- The only occurrence of a number is gone.
alone : (piece : ℕ) {n m : ℕ} → n + one (piece == piece) ≡ m → m ≤ 1 → n ≡ 0
alone piece e h = ground arith

module _ (s : PiecePicker) (v : IsValid s) where
  -- A piece that is in no container comes back, untouched.
  requeue_piece-IsValid :
      (c : Containers) (d : DownloadPieceInfo)
      → IsFresh d
      → All IsFresh c.waiting_pieces
      → All IsActive c.downloading_pieces
      → occurs d.piece_index c.downloading_pieces ≡ 0
      → ((i : ℕ)
          → occurs i c.waiting_pieces + occurs i c.downloading_pieces + one (d.piece_index == i)
            ≡ occurs i s.waiting_pieces + occurs i s.downloading_pieces)
      → IsValid (with_containers s (requeue_piece c d))
  unfolding requeue_piece
  requeue_piece-IsValid c d fresh w a o n =
      elim (Bool-cases (should_piece_start_downloading d.priority c.downloading_pieces)) [
        | inl g ↦ rw g (
            with_containers-IsValid s _ v
              (λ i. omega (arith, n i, occurs-insert_downloading i d c.downloading_pieces o)) w
              (All-insert_downloading IsActive d c.downloading_pieces (fresh-IsActive d fresh) a))
        | inr g ↦ rw g (
            with_containers-IsValid s _ v
              (λ i. omega (arith, n i, occurs-insert_waiting i d c.waiting_pieces))
              (All-insert_waiting IsFresh d c.waiting_pieces fresh w) a)
      ]

  -- `MarkPieceFailed` on a downloading piece, with its torrent there, passes its assertions and keeps the invariant and the map; the piece is then untouched, whatever had been downloaded of it.
  pub mark_piece_failed_lem :
      (t : Torrent) (piece : ℕ) (d : DownloadPieceInfo)
      → Workable t
      → Owns t s
      → find_piece piece s.downloading_pieces ≡ some d
      → (s' : PiecePicker) × (mark_piece_failed (some t) s piece ≡ some s')
        × IsValid s'
        × (s'.piece_map ≡ s.piece_map)
  unfolding mark_piece_failed
  mark_piece_failed_lem t piece d w m e =
      let here = (find_piece-some piece s.downloading_pieces d e).1 in
      let inside : piece < length t.piece_map = ground (arith, v.placed piece) in
      let (d', f, number, fresh) = construct_download_piece_lem t w piece inside in
      let gone = λ (i : ℕ). occurs-erase_piece piece i s.downloading_pieces here in
      (
        _,
        rw (e, f),
        requeue_piece-IsValid _ d' fresh v.fresh
            (All-erase_piece IsActive piece s.downloading_pieces v.active)
            (rw number (
              alone piece (gone piece)
                (omega (arith, v.placed piece, one-le (ltb piece (length s.piece_map))))))
            (λ i. rw number (omega (arith, gone i))),
        refl,
      )

  -- The state after a verification that fails.
  abbrev failed_state : ℕ → DownloadPieceInfo → PiecePicker
  failed_state piece d = record s {
    containers = record (s.containers) { waiting_pieces = insert_waiting d s.waiting_pieces };
    finished_pieces = erase_finished piece s.finished_pieces;
  }

  -- A fresh piece that is inserted is found there, and all its blocks wait.
  find_piece-IsFresh :
      (d : DownloadPieceInfo) (piece : ℕ) (ws : List DownloadPieceInfo)
      → d.piece_index ≡ piece
      → All IsFresh (insert_waiting d ws)
      → (d' : DownloadPieceInfo) × (find_piece piece (insert_waiting d ws) ≡ some d') × IsFresh d'
  find_piece-IsFresh d piece ws number fresh =
      elim (Option-cases (find_piece piece (insert_waiting d ws))) [
        | inl e ↦ absurd (
            ground (
              arith,
              find_piece-none-occurs piece (insert_waiting d ws) e,
              occurs-insert_waiting piece d ws,
              number,
            ))
        | inr (d', e) ↦ (d', e, find_piece-All IsFresh piece (insert_waiting d ws) d' e fresh)
      ]

  -- `OnVerifyPiece(false)`, with the torrent there, of a finished piece that is not verified, passes the assertions, calls nothing of the torrent and keeps the invariant and the map; the piece is among the finished ones no more, but waits with all its blocks to be downloaded again.
  pub fail_to_verify_lem :
      (t : Torrent) (piece : ℕ) (f : FinishedPieceInfo)
      → Workable t
      → Owns t s
      → find_finished piece s.finished_pieces ≡ some f
      → get_elem? s.piece_map piece ≡ some false
      → (s' : PiecePicker) × (on_verify_piece (some t) s false piece ≡ some (s', []))
        × IsValid s'
        × (s'.piece_map ≡ s.piece_map)
        × (find_finished piece s'.finished_pieces ≡ none)
        × ((d : DownloadPieceInfo) × (find_piece piece s'.waiting_pieces ≡ some d) × IsFresh d)
  unfolding on_verify_piece fail_to_verify_piece_proc
  fail_to_verify_lem t piece f w m e b =
      let here = find_finished-some piece s.finished_pieces f e in
      let (d, g, number, fresh) =
        construct_download_piece_lem t w piece
          (omega (arith, get_elem?-some s.piece_map piece b)) in
      let gone = λ (i : ℕ). occurs_finished-erase_finished piece i s.finished_pieces here in
      let n : occurs_finished piece (erase_finished piece s.finished_pieces) ≡ 0 =
        alone piece (gone piece)
          (omega (arith, v.placed piece, one-le (ltb piece (length s.piece_map)))) in
      let missing : find_finished piece (erase_finished piece s.finished_pieces) ≡ none =
        find_finished-none piece (erase_finished piece s.finished_pieces) n in
      let all_fresh = All-insert_waiting IsFresh d s.waiting_pieces fresh v.fresh in
      (
        failed_state piece d,
        rw (e, g),
        record {
          placed = λ i.
              rw (occurs-insert_waiting i d s.waiting_pieces, number)
                (omega (arith, v.placed i, gone i));
          fresh = all_fresh;
          active = v.active;
          agrees = λ i. elim (Bool-cases (piece == i)) [
            | inl q ↦ let p : piece ≡ i = ground arith in rw (← p) (ap verified_of missing ∙ rw b)
            | inr q ↦
                ap verified_of
                  (find_finished-erase_finished piece i s.finished_pieces (ground arith))
                ∙ v.agrees i
          ];
          counted = v.counted;
        },
        refl,
        missing,
        find_piece-IsFresh d piece s.waiting_pieces number all_fresh,
      )

  -- The state after a verification that succeeds.
  abbrev verified_state : ℕ → PiecePicker
  verified_state piece = record s {
    finished_pieces = verify_finished piece s.finished_pieces;
    piece_map = set s.piece_map piece true;
    verified_piece_num = s.verified_piece_num + 1;
  }

  verified_state-IsValid :
      (piece : ℕ)
      → 0 < occurs_finished piece s.finished_pieces
      → get_elem? s.piece_map piece ≡ some false
      → IsValid (verified_state piece)
  verified_state-IsValid piece here b =
      let below = get_elem?-some s.piece_map piece b in
      record {
        placed = λ i.
            rw
              (
                occurs_finished-verify_finished piece i s.finished_pieces,
                length-set s.piece_map piece true,
              )
              (v.placed i);
        fresh = v.fresh;
        active = v.active;
        agrees = λ i.
            find_finished-verify_finished piece i s.finished_pieces here
            ∙ ap (λ z. if piece == i then true else z) (v.agrees i)
            ∙ sym (bit_of-set s.piece_map piece i below);
        counted = omega (arith, v.counted, count_true-set s.piece_map piece b);
      }

  -- A verification that succeeds, of a finished piece that is not verified, passes the assertions, keeps the invariant and makes the piece count as finished, with its bit set in the map and the others as they were; the torrent is told that it has the piece, and that it is a seed exactly when every piece of the map is verified by then.
  pub verify_lem :
      (t : Torrent) (piece : ℕ) (f : FinishedPieceInfo)
      → Workable t
      → Owns t s
      → find_finished piece s.finished_pieces ≡ some f
      → get_elem? s.piece_map piece ≡ some false
      → (s' : PiecePicker) × (on_verify_piece (some t) s true piece
          ≡ some (
            s',
            have_piece piece
                ∷ (if count_true s'.piece_map == length s'.piece_map then set_seed ∷ [] else []),
          ))
        × IsValid s'
        × (is_piece_finished s' piece ≡ true)
        × (s'.piece_map ≡ set s.piece_map piece true)
  unfolding on_verify_piece is_piece_finished Torrent.get_piece_num
  verify_lem t piece f w m e b =
      let here = find_finished-some piece s.finished_pieces f e in
      let same : count_true (set s.piece_map piece true) ≡ s.verified_piece_num + 1 =
        omega (arith, v.counted, count_true-set s.piece_map piece b) in
      (
        verified_state piece,
        rw (e, b, same, length-set s.piece_map piece true, m, w.valid.ready),
        verified_state-IsValid piece here b,
        is_piece_finished-verified_of (verified_state piece) piece
            ∙ find_finished-verify_finished piece piece s.finished_pieces here
            ∙ ground arith,
        refl,
      )

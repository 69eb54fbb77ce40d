-- ===== src/Picker/Marks.antt =====
-- What marking blocks and pieces keeps of the invariant.
use resource_cache.Common.{
  ℕ, zero, suc, ◌+◌, ◌<◌, ◌≡◌, refl, sym, ap, ◌∙◌, inl, inr, Bool, true, false, Option, none, some,
  List, [], ◌∷◌, ltb, ◌==◌, if◌then◌else◌, bc_assert, arith, Bool-cases, get_elem?, set, length,
  length-set, get_elem?-set_self, >>=-eq-some, bc_assert-true,
}
use resource_cache.Torrent.{Torrent}
use resource_cache.Picker.Pieces.{
  PieceBlock, BlockState, waiting, downloading, finished, is_downloading, is_finished,
  DownloadPieceInfo, FinishedPieceInfo, find_piece, erase_piece, write_piece, find_finished,
}
use resource_cache.Picker.State.{PiecePicker, TorrentCall, async_verify_piece}
use resource_cache.Picker.Mark.{
  downloading_piece_of, is_block_finished, mark_block_failed, mark_block_finished, finish_piece,
  write_downloading, erase_downloading,
}
use resource_cache.Picker.Containers.{
  one, occurs, occurs_finished, occurs-erase_piece, occurs-write_piece, find_piece-some,
  find_piece-write_piece, erase_piece-write_piece, All-erase_piece, All-write_piece, find_piece-All,
}
use resource_cache.Picker.Finished.{verified_of, find_finished-none, insert_finished_new}
use resource_cache.Picker.Blocks.{count_blocks}
use resource_cache.Picker.BlockStates.{block_state, IsActive}
use resource_cache.Picker.Invariant.{IsValid, with_containers-IsValid, one-le}

count_blocks-set :
    (test : BlockState → Bool) (bs : List BlockState) (i : ℕ) (old new : BlockState)
    → get_elem? bs i ≡ some old
    → count_blocks test (set bs i new) + one (test old) ≡ count_blocks test bs + one (test new)
count_blocks-set test [] i old new e = absurd (cc)
count_blocks-set test (b ∷ bs) zero old new e = let q : b ≡ old = ground arith in rw q (omega arith)
count_blocks-set test (b ∷ bs) (suc i) old new e =
    omega (arith, count_blocks-set test bs i old new e)

-- What passes the assertions of `MarkBlockFailed` and `MarkBlockFinished`.
pub downloading_piece_of-some :
    (s : PiecePicker) (block : PieceBlock) (d : DownloadPieceInfo)
    → downloading_piece_of s block ≡ some d
    → (find_piece block.piece_index s.downloading_pieces ≡ some d)
      × (get_elem? d.blocks block.block_index ≡ some downloading)
unfolding downloading_piece_of
downloading_piece_of-some s block d e =
    let (x, f, g) = >>=-eq-some (find_piece block.piece_index s.downloading_pieces) _ e in
    let (state, h, k) = >>=-eq-some (get_elem? x.blocks block.block_index) _ g in
    let (_, l, m) = >>=-eq-some (bc_assert (is_downloading state)) _ k in
    let q : state ≡ downloading = in_state state (bc_assert-true _ l) in
    let r : x ≡ d = ground arith in
    (
      f ∙ ap some r,
      ap (λ (z : DownloadPieceInfo). get_elem? z.blocks block.block_index) (sym r) ∙ h ∙ ap some q,
    )
  where
    in_state : (state : BlockState) → is_downloading state ≡ true → state ≡ downloading
    in_state state e = ground arith

-- The assertions pass where the block is being downloaded.
downloading_piece_of_lem :
    (s : PiecePicker) (block : PieceBlock) (d : DownloadPieceInfo)
    → find_piece block.piece_index s.downloading_pieces ≡ some d
    → get_elem? d.blocks block.block_index ≡ some downloading
    → downloading_piece_of s block ≡ some d
unfolding downloading_piece_of
downloading_piece_of_lem s block d e f = rw (e, f)

×_path : {A B : Type 0} {p q : A × B} → p.0 ≡ q.0 → p.1 ≡ q.1 → p ≡ q
×_path e f = λ i. (e i, f i)

below : (bs : List BlockState) (i : ℕ) {b : BlockState} → get_elem? bs i ≡ some b → i < length bs
below [] i h = absurd (cc)
below (b ∷ bs) zero h = omega arith
below (b ∷ bs) (suc i) h = omega (arith, below bs i h)

module _ (s : PiecePicker) (v : IsValid s) (block : PieceBlock) (d : DownloadPieceInfo)
    (e : find_piece block.piece_index s.downloading_pieces ≡ some d)
    (f : get_elem? d.blocks block.block_index ≡ some downloading) where
  -- A downloading piece is written in its place.
  write-IsValid : (d' : DownloadPieceInfo) → IsActive d' → IsValid (write_downloading s d')
  write-IsValid d' a =
      with_containers-IsValid s _ v
        (λ i. omega (arith, occurs-write_piece i d' s.downloading_pieces)) v.fresh
        (All-write_piece IsActive d' s.downloading_pieces a v.active)

  d-IsActive : IsActive d
  d-IsActive = find_piece-All IsActive block.piece_index s.downloading_pieces d e v.active

  -- The state of the block once its piece is written back.
  written_state :
      (d' : DownloadPieceInfo) (state : BlockState)
      → d'.piece_index ≡ d.piece_index
      → d'.blocks ≡ set d.blocks block.block_index state
      → block_state (write_piece d' s.downloading_pieces) block ≡ some state
  written_state d' state p q =
      let (number, here) = find_piece-some block.piece_index s.downloading_pieces d e in
      let n : d'.piece_index ≡ block.piece_index = p ∙ number in
      let w : find_piece block.piece_index (write_piece d' s.downloading_pieces) ≡ some d' =
        rw (← n) (find_piece-write_piece d' s.downloading_pieces (rw n here)) in
      rw (w, q)
        (get_elem?-set_self d.blocks block.block_index state (below d.blocks block.block_index f))

  -- `MarkBlockFailed` on a block that is being downloaded passes its assertions, keeps the invariant and the map, and leaves the block waiting.
  pub mark_block_failed_lem :
      (s' : PiecePicker) × (mark_block_failed s block ≡ some s')
      × IsValid s'
      × (block_state s'.downloading_pieces block ≡ some waiting)
      × (s'.piece_map ≡ s.piece_map)
  unfolding mark_block_failed
  mark_block_failed_lem =
      let d' = record d { blocks = set d.blocks block.block_index waiting } in
      let c = count_blocks-set is_finished d.blocks block.block_index downloading waiting f in
      (
        write_downloading s d',
        rw (downloading_piece_of_lem s block d e f),
        write-IsValid d' (
          omega (arith, d-IsActive, c),
          omega (arith, d-IsActive, length-set d.blocks block.block_index waiting),
        ),
        written_state d' waiting refl refl,
        refl,
      )

  -- The piece with its block written.
  abbrev finished_block : DownloadPieceInfo
  finished_block = record d {
    blocks = set d.blocks block.block_index finished;
    finished_blocks = d.finished_blocks + 1;
  }

  number : finished_block.piece_index ≡ block.piece_index
  number = (find_piece-some block.piece_index s.downloading_pieces d e).0

  here : 0 < occurs block.piece_index s.downloading_pieces
  here = (find_piece-some block.piece_index s.downloading_pieces d e).1

  absent : occurs_finished block.piece_index s.finished_pieces ≡ 0
  absent =
      omega (
        arith,
        v.placed block.piece_index,
        one-le (ltb block.piece_index (length s.piece_map)),
        here,
      )

  -- The piece is moved from the downloading to the finished ones.
  moved-IsValid : IsValid (record (erase_downloading s block.piece_index) {
    finished_pieces =
        record { piece_index = block.piece_index; verified = false } ∷ s.finished_pieces;
  })
  unfolding find_finished
  moved-IsValid = record {
    placed = λ i.
        omega (arith, v.placed i, occurs-erase_piece block.piece_index i s.downloading_pieces here);
    fresh = v.fresh;
    active = All-erase_piece IsActive block.piece_index s.downloading_pieces v.active;
    agrees = λ i. elim (Bool-cases (block.piece_index == i)) [
      | inl q ↦
          let p : block.piece_index ≡ i = ground arith in
          let n : find_finished i s.finished_pieces ≡ none =
            rw (← p) (find_finished-none block.piece_index s.finished_pieces absent) in
          rw q (ap verified_of (sym n) ∙ v.agrees i)
      | inr q ↦ rw q (v.agrees i)
    ];
    counted = v.counted;
  }

  finish_piece_lem :
      (t : Option Torrent)
      → (finish_piece t (write_downloading s finished_block) block.piece_index).0
        ≡ record (erase_downloading s block.piece_index) {
          finished_pieces =
              record { piece_index = block.piece_index; verified = false } ∷ s.finished_pieces;
        }
  unfolding finish_piece
  finish_piece_lem t =
      let gone : erase_piece block.piece_index (write_piece finished_block s.downloading_pieces)
          ≡ erase_piece block.piece_index s.downloading_pieces =
        rw (← number) (erase_piece-write_piece finished_block s.downloading_pieces) in
      rw (
        gone,
        insert_finished_new (record { piece_index = block.piece_index; verified = false })
            s.finished_pieces absent,
      )

  -- The last block is there exactly when all the others were finished.
  abbrev is_last : Bool
  is_last = count_blocks is_finished d.blocks + 1 == length d.blocks

  -- What is called of a torrent that is still there.
  abbrev calls_of : Option Torrent → List TorrentCall
  calls_of none = []
  calls_of (some t) = if is_last then async_verify_piece block.piece_index ∷ [] else []

  no_calls : (t : Option Torrent) → is_last ≡ false → calls_of t ≡ []
  no_calls none q = refl
  no_calls (some t) q = rw q

  last_calls :
      (t : Option Torrent) (s' : PiecePicker)
      → is_last ≡ true
      → (finish_piece t s' block.piece_index).1 ≡ calls_of t
  unfolding finish_piece
  last_calls none s' q = refl
  last_calls (some t) s' q = rw q

  finished_in_place : is_block_finished (write_downloading s finished_block) block ≡ some true
  unfolding is_block_finished
  finished_in_place =
      let w : find_piece block.piece_index (write_piece finished_block s.downloading_pieces)
          ≡ some finished_block =
        rw (← number)
          (find_piece-write_piece finished_block s.downloading_pieces (rw number here)) in
      rw (
        find_finished-none block.piece_index s.finished_pieces absent,
        is_block_finished,
        w,
        get_elem?-set_self d.blocks block.block_index finished (below d.blocks block.block_index f),
      )

  finished_when_moved :
      (s' : PiecePicker) (fs : List FinishedPieceInfo)
      → s'.finished_pieces ≡ record { piece_index = block.piece_index; verified = false } ∷ fs
      → is_block_finished s' block ≡ some true
  unfolding is_block_finished find_finished
  finished_when_moved s' fs q =
      let new : FinishedPieceInfo = record { piece_index = block.piece_index; verified = false } in
      let r : find_finished block.piece_index (new ∷ fs) ≡ some new = ground arith in
      let z : find_finished block.piece_index s'.finished_pieces ≡ some new =
        ap (find_finished block.piece_index) q ∙ r in
      rw (z, is_block_finished)

  -- `MarkBlockFinished` on a block that is being downloaded passes its assertions and keeps the invariant and the map; the block counts as finished from then on, and the piece goes to verification exactly when all its other blocks were finished.
  pub mark_block_finished_lem :
      (t : Option Torrent)
      → (s' : PiecePicker) × (mark_block_finished t s block ≡ some (s', calls_of t))
        × IsValid s'
        × (is_block_finished s' block ≡ some true)
        × (s'.piece_map ≡ s.piece_map)
  unfolding mark_block_finished
  mark_block_finished_lem t =
      let l = length-set d.blocks block.block_index finished in
      let c = count_blocks-set is_finished d.blocks block.block_index downloading finished f in
      let p = downloading_piece_of_lem s block d e f in
      elim (Bool-cases (ltb (d.finished_blocks + 1) (length d.blocks))) [
        | inl g ↦
            let q : is_last ≡ false = ground (arith, d-IsActive) in
            (
              write_downloading s finished_block,
              rw (p, l, g)
                  (ap (λ z. some (write_downloading s finished_block, z)) (sym (no_calls t q))),
              write-IsValid finished_block (omega (arith, d-IsActive, c), ground (arith, l)),
              finished_in_place,
              refl,
            )
        | inr g ↦
            let q : is_last ≡ true = ground (arith, d-IsActive) in
            let q' : (d.finished_blocks + 1 == length d.blocks) ≡ true =
              ground (arith, d-IsActive) in
            (
              _,
              rw (p, l, g, q') (ap some (×_path (finish_piece_lem t) (last_calls t _ q))),
              moved-IsValid,
              finished_when_moved _ s.finished_pieces refl,
              refl,
            )
      ]

-- ===== src/Picker/Invariant.antt =====
-- What holds of a picker between two calls, and that picking keeps it.
use resource_cache.Common.{
  refl, sym, ap, subst, ℕ, ◌+◌, ◌-◌, ◌≤◌, ◌<◌, ◌≡◌, ◌≢◌, ◌⊎◌, inl, inr, Bool, true, false, some,
  List, [], ◌∷◌, ◌++◌, ltb, leb, arith, Bool-cases, get_elem?, length, length-append, le→leb,
}
use resource_cache.Picker.Pieces.{
  PieceBlock, waiting, downloading, DownloadPieceInfo, find_finished,
}
use resource_cache.Picker.Loops.{Picked, Containers, pick_downloading, pick_waiting}
use resource_cache.Picker.State.{PiecePicker, with_containers}
use resource_cache.Picker.Choose.{
  pick_blocks, pick_blocks_from_downloading_pieces, pick_blocks_from_waiting_pieces,
}
use resource_cache.Picker.Containers.{one, All, All-map, All-append, occurs, occurs_finished}
use resource_cache.Picker.Blocks.{AllApart, AllApart-append}
use resource_cache.Picker.Finished.{verified_of, bit_of, count_true}
use resource_cache.Picker.BlockStates.{block_state, block_state-absent, IsActive, total_downloading}
use resource_cache.Picker.Downloading.{PicksPieces, pick_downloading-PicksPieces}
use resource_cache.Picker.Waiting.{IsFresh, StartsPieces}
use resource_cache.Picker.Starting.{pick_waiting-StartsPieces}

-- Every piece of the torrent is in exactly one container, once; waiting pieces are untouched;
-- downloading pieces count their finished blocks and lack some; the map and the counter agree with
-- the finished pieces that were verified.
pub record IsValid (s : PiecePicker) : Type 0 where
  pub placed :
      (i : ℕ)
      → occurs i s.waiting_pieces
          + occurs i s.downloading_pieces
          + occurs_finished i s.finished_pieces
        ≡ one (ltb i (length s.piece_map))
  pub fresh : All IsFresh s.waiting_pieces
  pub active : All IsActive s.downloading_pieces
  pub agrees :
      (i : ℕ) → verified_of (find_finished i s.finished_pieces) ≡ bit_of (get_elem? s.piece_map i)
  pub counted : s.verified_piece_num ≡ count_true s.piece_map

-- The containers may be exchanged for others with the same numbers in all.
pub with_containers-IsValid :
    (s : PiecePicker) (c : Containers)
    → IsValid s
    → ((i : ℕ)
        → occurs i c.waiting_pieces + occurs i c.downloading_pieces
          ≡ occurs i s.waiting_pieces + occurs i s.downloading_pieces)
    → All IsFresh c.waiting_pieces
    → All IsActive c.downloading_pieces
    → IsValid (with_containers s c)
with_containers-IsValid s c v e f a = record {
  placed = λ i. omega (arith, v.placed i, e i);
  fresh = f;
  active = a;
  agrees = v.agrees;
  counted = v.counted;
}

pub one-le : (b : Bool) → one b ≤ 1
one-le true = omega arith
one-le false = omega arith

-- Numbers that a container holds are numbers of pieces.
pub numbers_below :
    (n : ℕ) (ds : List DownloadPieceInfo)
    → ((i : ℕ) → occurs i ds ≤ one (ltb i n))
    → All (λ d. d.piece_index < n) ds
numbers_below n [] h = tt
numbers_below n (d ∷ ds) h =
    (ground (arith, h d.piece_index), numbers_below n ds (λ i. omega (arith, h i)))

-- A block that was picked: it waited, its piece passes the filter, and it is being downloaded now.
abbrev pub IsChosen : List Bool → PiecePicker → PiecePicker → PieceBlock → Type 0
IsChosen filter s s' pb =
    (get_elem? filter pb.piece_index ≡ some true)
    × ((block_state s.downloading_pieces pb ≡ some waiting)
        ⊎ (block_state s.waiting_pieces pb ≡ some waiting))
    × (block_state s'.downloading_pieces pb ≡ some downloading)

-- No block that passes the filter waits.
abbrev pub NoneWaits : List Bool → PiecePicker → Type 0
NoneWaits filter s =
    (pb : PieceBlock)
    → get_elem? filter pb.piece_index ≡ some true
    → (block_state s.downloading_pieces pb ≢ some waiting)
      × (block_state s.waiting_pieces pb ≢ some waiting)

pub record Chooses (s : PiecePicker) (filter : List Bool) (num : ℕ) (s' : PiecePicker)
    (blocks : List PieceBlock) : Type 0 where
  pub valid : IsValid s'
  pub same_map : s'.piece_map ≡ s.piece_map
  pub at_most : length blocks ≤ num
  pub all_chosen : All (IsChosen filter s s') blocks
  pub one_each :
      total_downloading s'.downloading_pieces
      ≡ total_downloading s.downloading_pieces + length blocks
  pub apart : AllApart blocks
  pub taken : length blocks < num → NoneWaits filter s'

module _ (s : PiecePicker) (filter : List Bool) (v : IsValid s)
    (covers : length s.piece_map ≤ length filter) where
  -- The first stage.
  stage_one :
      (num : ℕ)
      → 0 < num
      → (q : Picked (List DownloadPieceInfo)) × (pick_downloading filter num 0 s.downloading_pieces
          ≡ some q)
        × PicksPieces filter num 0 s.downloading_pieces q
  stage_one num h =
      pick_downloading-PicksPieces filter num 0 s.downloading_pieces h
        (All-map _ _ s.downloading_pieces (λ d k. omega arith)
          (numbers_below (length s.piece_map) s.downloading_pieces
            (λ i. omega (arith, v.placed i))))
        (λ i. omega (arith, v.placed i, one-le (ltb i (length s.piece_map)))) v.active

  stage_two :
      (num : ℕ) (ds : List DownloadPieceInfo)
      → 0 < num
      → ((i : ℕ) → occurs i ds ≡ occurs i s.downloading_pieces)
      → All IsActive ds
      → (q : Picked Containers) × (pick_waiting filter num 0 ds s.waiting_pieces ≡ some q)
        × StartsPieces filter num 0 ds s.waiting_pieces q
  stage_two num ds h e a =
      pick_waiting-StartsPieces filter num 0 ds s.waiting_pieces h
        (All-map _ _ s.waiting_pieces (λ d k. omega arith)
          (numbers_below (length s.piece_map) s.waiting_pieces (λ i. omega (arith, v.placed i))))
        (λ i. omega (arith, v.placed i, e i, one-le (ltb i (length s.piece_map)))) v.fresh a

  after_one :
      (num : ℕ) (q : Picked (List DownloadPieceInfo))
      → num ≤ length q.picked
      → PicksPieces filter num 0 s.downloading_pieces q
      → Chooses s filter num
          (with_containers s (record (s.containers) { downloading_pieces = q.left }))
          q.picked
  after_one num q enough k = record {
    valid =
        with_containers-IsValid s _ v (λ i. omega (arith, k.same_numbers i)) v.fresh k.still_active;
    same_map = refl;
    at_most = omega (arith, k.counted, k.in_bounds);
    all_chosen = All-map _ _ q.picked (λ pb h. (h.0, inl h.1, h.2)) k.picks;
    one_each = k.more_downloading;
    apart = k.apart;
    taken = λ l. absurd (omega (arith, enough, l));
  }

  -- A block does not wait in both containers.
  elsewhere :
      (x y : PieceBlock)
      → block_state s.downloading_pieces x ≡ some waiting
      → block_state s.waiting_pieces y ≡ some waiting
      → x ≢ y
  elsewhere x y h k e =
      let down = block_state-absent s.downloading_pieces x h in
      let wait = block_state-absent s.waiting_pieces y k in
      let same : x.piece_index ≡ y.piece_index = ap (λ z. z.piece_index) e in
      twice x.piece_index down (subst (λ i. occurs i s.waiting_pieces ≢ 0) (sym same) wait)
    where
      twice : (i : ℕ) → occurs i s.downloading_pieces ≢ 0 → occurs i s.waiting_pieces ≢ 0 → ⊥
      twice i a b = omega (arith, v.placed i, one-le (ltb i (length s.piece_map)), a, b)

  after_two :
      (num : ℕ) (q : Picked (List DownloadPieceInfo)) (p : Picked Containers)
      → length q.picked < num
      → PicksPieces filter num 0 s.downloading_pieces q
      → StartsPieces filter (num - length q.picked) 0 q.left s.waiting_pieces p
      → Chooses s filter num (with_containers s p.left) (q.picked ++ p.picked)
  after_two num q p l k m = record {
    valid =
        with_containers-IsValid s _ v (λ i. omega (arith, k.same_numbers i, m.same_numbers i))
          m.still_fresh m.still_active;
    same_map = refl;
    at_most = omega (arith, length-append q.picked p.picked, m.counted, m.in_bounds);
    all_chosen =
        All-append _ q.picked p.picked
          (All-map _ _ q.picked (λ pb h. (h.0, inl h.1, m.kept pb downloading h.2)) k.picks)
          (All-map _ _ p.picked (λ pb h. (h.0, inr h.1, h.2)) m.picks);
    one_each =
        omega (arith, k.more_downloading, m.more_downloading, length-append q.picked p.picked);
    apart = AllApart-append q.picked p.picked k.apart m.apart (
        All-map _ _ q.picked (λ x h. All-map _ _ p.picked (λ y g. elsewhere x y h.1 g.1) m.picks)
          k.picks);
    taken = λ less pb admitted.
        let short : p.added < num - length q.picked =
          omega (arith, length-append q.picked p.picked, m.counted, less) in
        (
          λ e. k.taken (omega (arith, k.counted, l)) pb admitted (m.waited_before short pb e),
          m.taken short pb admitted,
        );
  }

  -- The half of `PickBlocks` that reads the downloading pieces, on its own.
  pub downloading_half_lem :
      (num : ℕ)
      → 0 < num
      → (s' : PiecePicker) × (blocks : List PieceBlock) × (pick_blocks_from_downloading_pieces s
            filter num
          ≡ some (s', blocks))
        × IsValid s'
        × (s'.piece_map ≡ s.piece_map)
  unfolding pick_blocks_from_downloading_pieces
  downloading_half_lem num h =
      let (q, e, k) = stage_one num h in
      (
        with_containers s (record (s.containers) { downloading_pieces = q.left }),
        q.picked,
        rw e refl,
        with_containers-IsValid s _ v (λ i. omega (arith, k.same_numbers i)) v.fresh k.still_active,
        refl,
      )

  -- The half that reads the waiting pieces, on its own.
  pub waiting_half_lem :
      (num : ℕ)
      → 0 < num
      → (s' : PiecePicker) × (blocks : List PieceBlock) × (pick_blocks_from_waiting_pieces s filter
            num
          ≡ some (s', blocks))
        × IsValid s'
        × (s'.piece_map ≡ s.piece_map)
  unfolding pick_blocks_from_waiting_pieces
  waiting_half_lem num h =
      let (p, e, m) = stage_two num s.downloading_pieces h (λ i. refl) v.active in
      (
        with_containers s p.left,
        p.picked,
        rw e refl,
        with_containers-IsValid s _ v (λ i. omega (arith, m.same_numbers i)) m.still_fresh
            m.still_active,
        refl,
      )

  -- `PickBlocks` in a valid picker, asked for at least one block with a filter at least as long as the piece map, while no other operation comes between its two halves, aborts at no assertion, keeps the invariant and the map of verified pieces and picks at most that many blocks, no two of them equal; each of them waited, passes the filter and is being downloaded afterwards, the blocks being downloaded grow by the number of those picked, and if they are fewer than asked for, no block that passes the filter waits any longer.
  pub pick_blocks_lem :
      (num : ℕ)
      → 0 < num
      → (s' : PiecePicker) × (blocks : List PieceBlock) × (pick_blocks s filter num
          ≡ some (s', blocks))
        × Chooses s filter num s' blocks
  unfolding pick_blocks pick_blocks_from_downloading_pieces pick_blocks_from_waiting_pieces
  pick_blocks_lem num h =
      let (q, e, k) = stage_one num h in
      let few : length q.picked ≤ num = omega (arith, k.counted, k.in_bounds) in
      elim (Bool-cases (leb num (length q.picked))) [
        | inl f ↦ (_, q.picked, rw (e, le→leb _ _ few, f), after_one num q (ground (arith, f)) k)
        | inr f ↦
            let (p, g, m) =
              stage_two (num - length q.picked) q.left (ground arith) k.same_numbers
                k.still_active in
            (
              _,
              q.picked ++ p.picked,
              rw (e, le→leb _ _ few, f, g),
              after_two num q p (ground arith) k m,
            )
      ]

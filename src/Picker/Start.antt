-- ===== src/Picker/Start.antt =====
-- The constructor of the picker gives every piece a place.
use resource_cache.Common.{
  ℕ, suc, ◌+◌, ◌-◌, ◌≤◌, ◌≡◌, refl, sym, ap, subst, ◌∙◌, inl, inr, Bool, true, false, none, some,
  List, [], ◌∷◌, ltb, ◌==◌, if◌then◌else◌, arith, Bool-cases, get_elem?, length,
}
use resource_cache.Torrent
use resource_cache.Torrent.{Torrent}
use resource_cache.Picker.Pieces.{DownloadPieceInfo, insert_waiting, find_finished}
use resource_cache.Picker.State.{PiecePicker, set_seed, with_containers, construct_loop, new}
use resource_cache.Picker.Containers.{
  one, All, occurs, occurs_finished, occurs-insert_waiting, All-insert_waiting,
}
use resource_cache.Picker.Finished.{verified_of, bit_of, count_true, insert_finished_new}
use resource_cache.Picker.BlockStates.{IsActive}
use resource_cache.Picker.Waiting.{IsFresh}
use resource_cache.Picker.Invariant.{IsValid}
use resource_cache.Picker.Construct.{Workable, construct_download_piece_lem}

-- The first `n` pieces have their place, and `bits` are the bits of the map from there on.
record Built (n : ℕ) (bits : List Bool) (s : PiecePicker) : Type 0 where
  placed :
      (i : ℕ)
      → occurs i s.waiting_pieces
          + occurs i s.downloading_pieces
          + occurs_finished i s.finished_pieces
        ≡ one (ltb i n)
  fresh : All IsFresh s.waiting_pieces
  active : All IsActive s.downloading_pieces
  agrees :
      (i : ℕ)
      → verified_of (find_finished i s.finished_pieces)
        ≡ (if ltb i n then bit_of (get_elem? s.piece_map i) else false)
  counted : s.verified_piece_num + count_true bits ≡ count_true s.piece_map
  rest : (j : ℕ) → get_elem? s.piece_map (n + j) ≡ get_elem? bits j
  sized : n + length bits ≡ length s.piece_map

Built-IsValid : (n : ℕ) (s : PiecePicker) → Built n [] s → IsValid s
Built-IsValid n s b =
    let whole : n ≡ length s.piece_map = omega (arith, b.sized) in
    record {
      placed = λ i. b.placed i ∙ ap (λ m. one (ltb i m)) whole;
      fresh = b.fresh;
      active = b.active;
      agrees = λ i. b.agrees i ∙ in_map i;
      counted = omega (arith, b.counted);
    }
  where
    beyond : (i : ℕ) → n ≤ i → get_elem? s.piece_map i ≡ none
    beyond i h =
        let q : n + (i - n) ≡ i = omega arith in
        subst (λ j. get_elem? s.piece_map j ≡ none) q (b.rest (i - n))

    in_map :
        (i : ℕ)
        → (if ltb i n then bit_of (get_elem? s.piece_map i) else false)
          ≡ bit_of (get_elem? s.piece_map i)
    in_map i = elim (Bool-cases (ltb i n)) [
      | inl e ↦ rw e
      | inr e ↦ rw e (ap bit_of (sym (beyond i (ground arith))))
    ]

-- The bits after the first of the rest.
next_rest :
    (map bits : List Bool) (b : Bool) (n : ℕ)
    → ((j : ℕ) → get_elem? map (n + j) ≡ get_elem? (b ∷ bits) j)
    → (j : ℕ) → get_elem? map (n + 1 + j) ≡ get_elem? bits j
next_rest map bits b n h j =
    let q : n + suc j ≡ n + 1 + j = omega arith in
    subst (λ k. get_elem? map k ≡ get_elem? bits j) q (h (suc j))

here_bit :
    (map bits : List Bool) (b : Bool) (n : ℕ)
    → ((j : ℕ) → get_elem? map (n + j) ≡ get_elem? (b ∷ bits) j)
    → get_elem? map n ≡ some b
here_bit map bits b n h =
    let q : n + 0 ≡ n = omega arith in subst (λ k. get_elem? map k ≡ some b) q (h 0)

module _ (n : ℕ) (bits : List Bool) (s : PiecePicker) where
  absent : {b : Bool} → Built n (b ∷ bits) s → occurs_finished n s.finished_pieces ≡ 0
  absent v = ground (arith, v.placed n)

  Built-true :
      Built n (true ∷ bits) s
      → Built (n + 1) bits (record s {
        finished_pieces = record { piece_index = n; verified = true } ∷ s.finished_pieces;
        verified_piece_num = s.verified_piece_num + 1;
      })
  unfolding find_finished
  Built-true v = record {
    placed = λ i. ground (arith, v.placed i);
    fresh = v.fresh;
    active = v.active;
    agrees = λ i. ground (arith, v.agrees i, here_bit s.piece_map bits true n v.rest);
    counted = omega (arith, v.counted);
    rest = next_rest s.piece_map bits true n v.rest;
    sized = omega (arith, v.sized);
  }

  Built-false :
      (d : DownloadPieceInfo)
      → d.piece_index ≡ n
      → IsFresh d
      → Built n (false ∷ bits) s
      → Built (n + 1) bits (
          with_containers s
            (record (s.containers) { waiting_pieces = insert_waiting d s.waiting_pieces }))
  Built-false d e f v = record {
    placed = λ i. rw (occurs-insert_waiting i d s.waiting_pieces, e) (ground (arith, v.placed i));
    fresh = All-insert_waiting IsFresh d s.waiting_pieces f v.fresh;
    active = v.active;
    agrees = λ i. v.agrees i ∙ more i (here_bit s.piece_map bits false n v.rest);
    counted = omega (arith, v.counted);
    rest = next_rest s.piece_map bits false n v.rest;
    sized = omega (arith, v.sized);
  }
    where
      more :
          (i : ℕ)
          → get_elem? s.piece_map n ≡ some false
          → (if ltb i n then bit_of (get_elem? s.piece_map i) else false)
            ≡ (if ltb i (n + 1) then bit_of (get_elem? s.piece_map i) else false)
      more i h = ground (arith, h)

nothing-Built :
    (piece_map : List Bool)
    → Built 0 piece_map (record {
      containers = record { waiting_pieces = []; downloading_pieces = [] };
      finished_pieces = [];
      verified_piece_num = 0;
      piece_map = piece_map;
    })
unfolding find_finished
nothing-Built piece_map = record {
  placed = λ i. ground arith;
  fresh = tt;
  active = tt;
  agrees = λ i. ground arith;
  counted = omega arith;
  rest = λ j. ap (get_elem? piece_map) (omega arith);
  sized = omega arith;
}

module _ (t : Torrent) (w : Workable t) where
  construct_loop_lem :
      (bits : List Bool) (n : ℕ) (s : PiecePicker)
      → length s.piece_map ≡ length t.piece_map
      → Built n bits s
      → (s' : PiecePicker) × (construct_loop t n bits s ≡ some s')
        × IsValid s'
        × (s'.piece_map ≡ s.piece_map)
  unfolding construct_loop
  construct_loop_lem [] n s m v = (s, refl, Built-IsValid n s v, refl)
  construct_loop_lem (true ∷ bits) n s m v =
      let (s', e, k, q) = construct_loop_lem bits (n + 1) _ m (Built-true n bits s v) in
      (
        s',
        rw
            (insert_finished_new (record { piece_index = n; verified = true }) s.finished_pieces
              (absent n bits s v))
            e,
        k,
        q,
      )
  construct_loop_lem (false ∷ bits) n s m v =
      let (d, g, number, fresh) = construct_download_piece_lem t w n (omega (arith, v.sized)) in
      let (s', e, k, q) =
        construct_loop_lem bits (n + 1) _ m (Built-false n bits s d number fresh v) in
      (s', rw g e, k, q)

  -- The constructor, for a torrent whose sizes fit and which has two pieces or more, and a map of as many bits as it has pieces, meets no assertion and gives a picker that satisfies the invariant with that map; it tells the torrent that it is a seed exactly when all bits of the map are set.
  pub new_lem :
      (piece_map : List Bool)
      → length piece_map ≡ length t.piece_map
      → (s : PiecePicker) × (new t piece_map
          ≡ some (s, if count_true piece_map == length piece_map then set_seed ∷ [] else []))
        × IsValid s
        × (s.piece_map ≡ piece_map)
  unfolding new Torrent.get_piece_num
  new_lem piece_map m =
      let start : PiecePicker = record {
        containers = record { waiting_pieces = []; downloading_pieces = [] };
        finished_pieces = [];
        verified_piece_num = 0;
        piece_map = piece_map;
      } in
      let (s, e, v, q) = construct_loop_lem piece_map 0 start m (nothing-Built piece_map) in
      let same : (length t.piece_map == length piece_map) ≡ true = ground arith in
      let counted : s.verified_piece_num ≡ count_true piece_map = v.counted ∙ ap count_true q in
      (s, rw (e, w.valid.ready, same, counted, ← m), v, q)

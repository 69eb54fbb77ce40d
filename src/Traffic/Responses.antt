-- ===== src/Traffic/Responses.antt =====
-- rcs/src/frame/traffic_controller.cpp: the fragments of a block arrive one after another.
use resource_cache.Common.{
  if_no, refl, ℕ, ◌+◌, ◌*◌, ◌%◌, ◌^◌, ◌<◌, ◌≡◌, ap, ◌∙◌, Bool, true, false, Option, some, List, [],
  ◌∷◌, ◌++◌, ◌==◌, ◌&&◌, ◌||◌, arith, >>=-eq-some,
}
use resource_cache.Torrent.{Torrent, u64, get_common_block_size}
use resource_cache.Picker.Pieces.{PieceBlock, downloading, find_piece}
use resource_cache.Picker.State.{PiecePicker, TorrentCall}
use resource_cache.Picker.Mark.{mark_block_finished, is_block_finished}
use resource_cache.Picker.BlockStates.{block_state}
use resource_cache.Picker.Invariant.{IsValid}
use resource_cache.Picker.Marks.{mark_block_finished_lem}
use resource_cache.Traffic.Speed.{is_speed_limited, count_bytes}
use resource_cache.Traffic.Upload.{PeerRequest}
use resource_cache.Traffic.Fragments.{PendingFragment}
use resource_cache.Traffic.Download.{
  Downloads, Surroundings, request_of, send_front, request_front, try_send_data_request, is_equal,
  block_done, take_front, is_empty, send_fragment_data_request,
}
use resource_cache.Traffic.Stopping.{
  Downloading, same_block_refl, ready, send_fragment_data_request_lem,
}

-- The numbers of a fragment, as the cutting of a block leaves them.
abbrev pub Aligned : ℕ → PendingFragment → Type 0
Aligned size f = (f.block.piece_index < 2 ^ 31) × (f.block_offset ≡ u64 (f.frag_index * size))

eq→== : (a b : ℕ) → a ≡ b → (a == b) ≡ true
eq→== a b e = ground (arith, e)

pub is_equal_request :
    (t : Torrent) (size : ℕ) (f : PendingFragment)
    → t.is_ready ≡ true
    → Aligned size f
    → is_equal (some t) f (request_of t.block_size size f) ≡ some true
unfolding is_equal get_common_block_size
is_equal_request t size f r a =
    ready t.is_ready t.block_size _ r
    ∙ ap some (
        equal f.block.piece_index (f.block.block_index * t.block_size) (f.frag_index * size)
          f.block_offset f.frag_len a.0 a.1)
  where
    equal :
        (i x y o n : ℕ)
        → i < 2 ^ 31
        → o ≡ u64 y
        → ((i == i % (2 ^ 32)) && (u64 (x + o) == u64 (x + y)) && (n == n)) ≡ true
    equal i x y o n h e =
        rw
          (
            eq→== i (i % 2 ^ 32) (omega arith),
            eq→== (u64 (x + o)) (u64 (x + y)) (omega (arith, e)),
            eq→== n n refl,
          )
          refl

-- The block is there, and nothing is being downloaded.
pub record Arrived (pb : PieceBlock) (s s' : Downloads) : Type 0 where
  pub valid : IsValid s'.picker
  pub finished : is_block_finished s'.picker pb ≡ some true
  pub same_map : s'.picker.piece_map ≡ s.picker.piece_map
  pub emptied : s'.download_frag_queue ≡ []

mark_finished :
    (t : Option Torrent) (s : PiecePicker) (pb : PieceBlock)
    → IsValid s
    → block_state s.downloading_pieces pb ≡ some downloading
    → (s' : PiecePicker) × (calls : List TorrentCall) × (mark_block_finished t s pb
        ≡ some (s', calls))
      × IsValid s'
      × (is_block_finished s' pb ≡ some true)
      × (s'.piece_map ≡ s.piece_map)
mark_finished t s pb v e =
    let (x, g, h) = >>=-eq-some (find_piece pb.piece_index s.downloading_pieces) _ e in
    let (s', q, v', w, m) = mark_block_finished_lem s v pb x g h t in (s', _, q, v', w, m)

pub take_last :
    (t : Torrent) (pb : PieceBlock) (r : PeerRequest) (f : PendingFragment) (s : Downloads)
    → f.block ≡ pb
    → Downloading pb s
    → (s' : Downloads) × (take_front (some t) r f [] s ≡ some s')
      × Arrived pb s s'
      × (s'.sent ≡ s.sent)
unfolding take_front
take_last t pb r f s e d =
    let (picker, calls, q, v, w, m) = mark_finished (some t) s.picker pb d.valid d.state in
    (
      record s {
        download_frag_queue = [];
        download_speed = count_bytes r.size s.download_speed;
        picker = picker;
        calls = s.calls ++ calls;
      },
      rw (e, q) refl,
      record { valid = v; finished = w; same_map = m; emptied = refl },
      refl,
    )

-- The queue once the first of several fragments of a block has arrived.
abbrev pub after_first : PeerRequest → List PendingFragment → Downloads → Downloads
after_first r rest s = record s {
  download_frag_queue = rest;
  download_speed = count_bytes r.size s.download_speed;
}

pub take_first :
    (t : Torrent) (pb : PieceBlock) (r : PeerRequest) (f g : PendingFragment)
    (rest : List PendingFragment) (s : Downloads)
    → f.block ≡ pb
    → g.block ≡ pb
    → take_front (some t) r f (g ∷ rest) s ≡ some (after_first r (g ∷ rest) s)
unfolding take_front
take_first t pb r f g rest s e e' =
    if_no (block_done f.block (g ∷ rest)) _ _ (rw (e, e', same_block_refl pb) refl)

pub send_front_lem :
    (p : Surroundings) (t : Torrent) (g : PendingFragment) (rest : List PendingFragment)
    (s : Downloads)
    → p.torrent ≡ some t
    → t.is_ready ≡ true
    → g.downloading ≡ false
    → send_front p (g ∷ rest) s
      ≡ some (record s {
        download_frag_queue =
            record g { downloading = true; request_time = p.now; tried_times = g.tried_times + 1 }
            ∷ rest;
        sent = s.sent ++ request_of t.block_size s.fragment_size g ∷ [];
      })
unfolding send_front
send_front_lem p t g rest s e r d =
    let g' = record g {
      downloading = true;
      request_time = p.now;
      tried_times = g.tried_times + 1;
    } in
    let s' = record s { download_frag_queue = g' ∷ rest } in
    if_no g.downloading _ _ d
    ∙ ap (λ o. send_fragment_data_request o g' s') e
    ∙ send_fragment_data_request_lem t g' s' r

pub none_true : (a b c : Bool) → a ≡ false → b ≡ false → c ≡ false → (a || b || c) ≡ false
none_true a b c e e' e'' = rw (e, e', e'') refl

pub try_send_lem :
    (p : Surroundings) (s : Downloads) (g : PendingFragment) (rest : List PendingFragment)
    → s.download_frag_queue ≡ g ∷ rest
    → s.download_block_failed ≡ false
    → p.is_proxy ≡ false
    → is_speed_limited s.download_speed_limit s.current_download_speed_limit s.download_speed
      ≡ false
    → try_send_data_request p s ≡ send_front p (g ∷ rest) s
unfolding try_send_data_request request_front
try_send_lem p s g rest e f x l =
    if_no _ _ _ (none_true s.download_block_failed p.is_proxy _ f x l)
    ∙ if_no (is_empty s.download_frag_queue) _ _ (ap is_empty e)
    ∙ ap (λ q. send_front p q s) e

-- ===== src/Traffic/Idle.antt =====
-- rcs/src/frame/traffic_controller.cpp: a connection that downloads nothing chooses a block.
use resource_cache.Common.{
  if_no, refl, ℕ, ◌^◌, ◌≤◌, ◌<◌, ◌≡◌, ◌⊎◌, inl, inr, ap, sym, ◌∙◌, Bool, true, false, not, Option,
  some, List, [], ◌∷◌, ◌++◌, append-nil, length, if◌then◌else◌, ◌>>=◌, ◌>>◌, bc_assert, arith,
  subst,
}
use resource_cache.Torrent.{Torrent, get_block_size}
use resource_cache.Picker.Pieces.{PieceBlock, waiting, downloading}
use resource_cache.Picker.State.{PiecePicker}
use resource_cache.Picker.Choose.{pick_blocks}
use resource_cache.Picker.BlockStates.{block_state}
use resource_cache.Picker.Invariant.{IsValid, Chooses, NoneWaits, pick_blocks_lem}
use resource_cache.Traffic.Speed.{is_speed_limited}
use resource_cache.Traffic.Fragments.{PendingFragment, resolve_block}
use resource_cache.Traffic.Download.{
  Downloads, Surroundings, request_of, try_send_data_request, request_front, apply_download_block,
  queue_blocks, send_front, is_empty,
}
use resource_cache.Traffic.Stopping.{Downloading}
use resource_cache.Traffic.Responses.{Aligned, send_front_lem, none_true}
use resource_cache.Traffic.Blocks.{AllNew, asked}
use resource_cache.Traffic.Cuts.{resolve_block_first}

-- Every block that waits in the picker has a size in the torrent, of at least one byte.
abbrev pub Sized : Torrent → PiecePicker → Type 0
Sized t s =
    (pb : PieceBlock)
    → ((block_state s.downloading_pieces pb ≡ some waiting)
        ⊎ (block_state s.waiting_pieces pb ≡ some waiting))
    → (pb.piece_index < 2 ^ 31)
      × ((z : ℕ) × (get_block_size t pb.piece_index pb.block_index ≡ some z)
          × (0 < z)
          × (z < 2 ^ 64))

-- The block `pb`, which waited, is being downloaded, and its first fragment, alone, was asked for.
pub record Started (t : Torrent) (now : ℕ) (pb : PieceBlock) (s s' : Downloads) : Type 0 where
  pub waited :
      (block_state s.picker.downloading_pieces pb ≡ some waiting)
      ⊎ (block_state s.picker.waiting_pieces pb ≡ some waiting)
  pub first : PendingFragment
  pub rest : List PendingFragment
  pub queue : s'.download_frag_queue ≡ asked now first ∷ rest
  pub asked_for : s'.sent ≡ s.sent ++ request_of t.block_size s.fragment_size first ∷ []
  pub going : Downloading pb s'
  pub aligned : Aligned s.fragment_size first
  pub others : AllNew s.fragment_size rest

-- No block that the peer has waits in the picker, and nothing was asked for.
pub record StaysIdle (p : Surroundings) (s s' : Downloads) : Type 0 where
  pub nothing_there : NoneWaits p.piece_map s'.picker
  pub valid : IsValid s'.picker
  pub empty : s'.download_frag_queue ≡ []
  pub same_sent : s'.sent ≡ s.sent

abbrev pub Turns : Torrent → Surroundings → Downloads → Option Downloads → Type 0
Turns t p s r =
    (s' : Downloads) × (r ≡ some s')
    × (StaysIdle p s s' ⊎ ((pb : PieceBlock) × Started t p.now pb s s'))

abbrev emptied : Downloads → Downloads
emptied s = record s { download_frag_queue = [] }

module _ (t : Torrent) (p : Surroundings) (s : Downloads) (e : p.torrent ≡ some t)
    (r : t.is_ready ≡ true) (l : 0 < s.fragment_size) where
  abbrev with_picker : PiecePicker → Downloads
  with_picker picker = record (emptied s) { picker = picker }

  -- What `ApplyDownloadBlock` and the rest of `TrySendDataRequest` do with the chosen blocks.
  abbrev go_on : Downloads × Bool → Option Downloads
  go_on (s', found) =
      let go =
        bc_assert (not (is_empty s'.download_frag_queue))
        >> send_front p s'.download_frag_queue s' in
      if found then go else some s'

  queue_one :
      (picker : PiecePicker) (pb : PieceBlock) (f : PendingFragment) (rest : List PendingFragment)
      → resolve_block p.now t s.fragment_size pb ≡ some (f ∷ rest)
      → queue_blocks p.now t (with_picker picker) (pb ∷ [])
        ≡ some (record (with_picker picker) { download_frag_queue = f ∷ rest }, true)
  unfolding queue_blocks
  queue_one picker pb f rest q = rw q (
      ap (λ z. some (record (with_picker picker) { download_frag_queue = f ∷ z }, true))
        (append-nil rest))

  chosen_one :
      (picker : PiecePicker) (pb : PieceBlock)
      → IsValid picker
      → ((block_state s.picker.downloading_pieces pb ≡ some waiting)
          ⊎ (block_state s.picker.waiting_pieces pb ≡ some waiting))
      → block_state picker.downloading_pieces pb ≡ some downloading
      → pb.piece_index < 2 ^ 31
      → (z : ℕ) × (get_block_size t pb.piece_index pb.block_index ≡ some z) × (0 < z) × (z < 2 ^ 64)
      → Turns t p (emptied s) (queue_blocks p.now t (with_picker picker) (pb ∷ []) >>= go_on)
  chosen_one picker pb v y d h (z, q, k, m) =
      let (f, rest, c, new) = resolve_block_first p.now t s.fragment_size z pb l h q k m in
      (
        record (with_picker picker) {
          download_frag_queue = asked p.now f ∷ rest;
          sent = s.sent ++ request_of t.block_size s.fragment_size f ∷ [];
        },
        rw (queue_one picker pb f rest c) refl
            ∙ send_front_lem p t f rest
                (record (with_picker picker) { download_frag_queue = f ∷ rest }) e r new.1.0,
        inr (
          pb,
          record {
            waited = y;
            first = f;
            rest = rest;
            queue = refl;
            asked_for = refl;
            going = record { valid = v; one_block = new.0; state = d };
            aligned = new.1.1;
            others = new.1.2;
          },
        ),
      )

  after_pick :
      (picker : PiecePicker) (blocks : List PieceBlock)
      → Chooses s.picker p.piece_map 1 picker blocks
      → Sized t s.picker
      → Turns t p (emptied s) (queue_blocks p.now t (with_picker picker) blocks >>= go_on)
  unfolding queue_blocks
  after_pick picker [] c z = (
    with_picker picker,
    refl,
    inl (record {
      nothing_there = c.taken (omega arith);
      valid = c.valid;
      empty = refl;
      same_sent = refl;
    }),
  )
  after_pick picker (pb ∷ []) c z =
      let (h, sized) = z pb c.all_chosen.0.1 in
      chosen_one picker pb c.valid c.all_chosen.0.1 c.all_chosen.0.2 h sized
  after_pick picker (pb ∷ pb' ∷ pbs) c z = absurd (omega (arith, c.at_most))

  request_front_lem :
      IsValid s.picker
      → length s.picker.piece_map ≤ length p.piece_map
      → Sized t s.picker
      → Turns t p (emptied s) (request_front p (emptied s))
  unfolding request_front apply_download_block
  request_front_lem v c z =
      let (picker, blocks, q, chooses) = pick_blocks_lem s.picker p.piece_map v c 1 (omega arith) in
      let (s', g, h) = after_pick picker blocks chooses z in
      (
        s',
        ap (λ o. apply_download_block p o (emptied s) >>= go_on) e ∙ picked s' picker blocks q g,
        h,
      )
    where
      picked :
          (s' : Downloads) (picker : PiecePicker) (blocks : List PieceBlock)
          → pick_blocks s.picker p.piece_map 1 ≡ some (picker, blocks)
          → (queue_blocks p.now t (with_picker picker) blocks >>= go_on) ≡ some s'
          → (apply_download_block p (some t) (emptied s) >>= go_on) ≡ some s'
      picked s' picker blocks q g = rw q g

  passes_guards :
      s.download_block_failed ≡ false
      → p.is_proxy ≡ false
      → is_speed_limited s.download_speed_limit s.current_download_speed_limit s.download_speed
        ≡ false
      → try_send_data_request p s ≡ request_front p s
  unfolding try_send_data_request
  passes_guards f x k = if_no _ _ _ (none_true s.download_block_failed p.is_proxy _ f x k)

  -- `TrySendDataRequest` of a connection that downloads nothing, whose torrent is still there and ready,
  -- whose peer is no proxy, that has given up no block and whose speed is below its limits, meets no
  -- assertion, given a valid picker with a size for every block that waits in it, as many bits of the
  -- peer as pieces, and fragments of at least a byte. Either no block of a piece that the peer has waits in the picker
  -- and nothing is asked for, or a block of the picker that waited is being downloaded, its fragments, numbered and
  -- not yet asked for, stand in the queue, and the first one was asked for.
  pub try_send_data_request_lem :
      s.download_frag_queue ≡ []
      → s.download_block_failed ≡ false
      → p.is_proxy ≡ false
      → is_speed_limited s.download_speed_limit s.current_download_speed_limit s.download_speed
        ≡ false
      → IsValid s.picker
      → length s.picker.piece_map ≤ length p.piece_map
      → Sized t s.picker
      → Turns t p s (try_send_data_request p s)
  try_send_data_request_lem q f x k v c z =
      let same : emptied s ≡ s = ap (λ u. record s { download_frag_queue = u }) (sym q) in
      let (s', g, h) =
        subst (λ u. Turns t p u (request_front p u)) same (request_front_lem v c z) in
      (s', passes_guards f x k ∙ g, h)

-- ===== src/Traffic/Stopping.antt =====
-- rcs/src/frame/traffic_controller.cpp: what becomes of a block whose download is given up.
use resource_cache.Common.{
  if_yes, if_no, asserted, refl, ℕ, ◌+◌, ◌≤◌, ◌<◌, ◌≡◌, ap, ◌∙◌, Bool, true, false, Option, some,
  List, [], ◌∷◌, ◌++◌, ◌-◌, bc_assert, length, ltb, leb, ◌||◌, if◌then◌else◌, ◌>>=◌, ◌>>◌, le→leb,
  lt→ltb, dec_lt, subst, ◌⊎◌, inl, inr, arith, >>=-eq-some,
}
use resource_cache.Common.Results.{ok}
use resource_cache.Torrent.{Torrent, get_common_block_size}
use resource_cache.Picker.Pieces.{PieceBlock, waiting, downloading, find_piece}
use resource_cache.Picker.State.{PiecePicker}
use resource_cache.Picker.Mark.{mark_block_failed}
use resource_cache.Picker.BlockStates.{block_state}
use resource_cache.Picker.Invariant.{IsValid}
use resource_cache.Picker.Marks.{mark_block_failed_lem}
use resource_cache.Traffic.Fragments.{PendingFragment}
use resource_cache.Traffic.Download.{
  Downloads, Surroundings, same_block, pop_block, fail_to_download_fragment, try_send_data_request,
  stop_loop, stop_download, request_of, send_fragment_data_request, re_download_fragment, time_out,
  download_timeout_proc,
}

abbrev pub AllOf : PieceBlock → List PendingFragment → Type 0
AllOf pb [] = Unit
AllOf pb (f ∷ fs) = (f.block ≡ pb) × AllOf pb fs

-- The queue holds fragments of one block, which is being downloaded by the picker.
pub record Downloading (pb : PieceBlock) (s : Downloads) : Type 0 where
  pub valid : IsValid s.picker
  pub one_block : AllOf pb s.download_frag_queue
  pub state : block_state s.picker.downloading_pieces pb ≡ some downloading

pub same_block_refl : (b : PieceBlock) → same_block b b ≡ true
same_block_refl b = ground arith

pop_block_all : (pb : PieceBlock) (fs : List PendingFragment) → AllOf pb fs → pop_block pb fs ≡ []
pop_block_all pb [] a = refl
pop_block_all pb (f ∷ fs) a = rw (a.0, same_block_refl pb, pop_block_all pb fs a.1) refl

-- The picker can mark a block failed that is being downloaded.
pub mark_failed :
    (s : PiecePicker) (pb : PieceBlock)
    → IsValid s
    → block_state s.downloading_pieces pb ≡ some downloading
    → (s' : PiecePicker) × (mark_block_failed s pb ≡ some s')
      × IsValid s'
      × (block_state s'.downloading_pieces pb ≡ some waiting)
      × (s'.piece_map ≡ s.piece_map)
mark_failed s pb v e =
    let (d, f, g) = >>=-eq-some (find_piece pb.piece_index s.downloading_pieces) _ e in
    mark_block_failed_lem s v pb d f g

-- The block was given up: it waits again, the queue is empty, and the connection asks for no data from
-- then on.
pub record GivenUp (pb : PieceBlock) (s s' : Downloads) : Type 0 where
  pub valid : IsValid s'.picker
  pub emptied : s'.download_frag_queue ≡ []
  pub state : block_state s'.picker.downloading_pieces pb ≡ some waiting
  pub same_map : s'.picker.piece_map ≡ s.picker.piece_map
  pub same_sent : s'.sent ≡ s.sent
  pub no_more : (p : Surroundings) → try_send_data_request p s' ≡ some s'

try_failed :
    (p : Surroundings) (s : Downloads)
    → s.download_block_failed ≡ true
    → try_send_data_request p s ≡ some s
unfolding try_send_data_request
try_failed p s h = guarded s.download_block_failed _ _ _ _ h
  where
    guarded :
        (b c d : Bool) (x y : Option Downloads) → b ≡ true → (if b || c || d then x else y) ≡ x
    guarded true c d x y h = refl
    guarded false c d x y h = absurd (cc)

fail_to_download_fragment_lem :
    (t : Torrent) (f : PendingFragment) (pb : PieceBlock) (s : Downloads)
    → f.block ≡ pb
    → Downloading pb s
    → (s' : Downloads) × (fail_to_download_fragment (some t) f s ≡ some s') × GivenUp pb s s'
unfolding fail_to_download_fragment
fail_to_download_fragment_lem t f pb s e d =
    let (picker, q, v, w, m) = mark_failed s.picker pb d.valid d.state in
    (
      record s { download_frag_queue = []; picker = picker; download_block_failed = true },
      rw (e, q, pop_block_all pb s.download_frag_queue d.one_block) refl,
      record {
        valid = v;
        emptied = refl;
        state = w;
        same_map = m;
        same_sent = refl;
        no_more = λ p. try_failed p _ refl;
      },
    )

stop_loop_lem :
    (t : Torrent) (fs : List PendingFragment) (pb : PieceBlock) (s : Downloads)
    → 0 < length fs
    → AllOf pb fs
    → Downloading pb s
    → (s' : Downloads) × (stop_loop (length fs) (some t) fs s ≡ ok s') × GivenUp pb s s'
unfolding stop_loop
stop_loop_lem t [] pb s l a d = absurd (omega arith)
stop_loop_lem t (f ∷ fs) pb s l a d =
    let (s', e, g) = fail_to_download_fragment_lem t f pb s a.0 d in
    (s', next s' e ∙ ap (λ q. stop_loop (length fs) (some t) q s') g.emptied, g)
  where
    next :
        (s' : Downloads)
        → fail_to_download_fragment (some t) f s ≡ some s'
        → stop_loop (length (f ∷ fs)) (some t) (f ∷ fs) s
          ≡ stop_loop (length fs) (some t) s'.download_frag_queue s'
    next s' e = rw e refl

-- `StopDownload` while a block is being downloaded, with the torrent still there, ends and meets no
-- assertion: the block waits again in the picker, whose invariant and map are kept, the queue is empty,
-- and nothing more was asked for. From then on `TrySendDataRequest` does nothing, whatever happens
-- around it.
pub stop_download_lem :
    (t : Torrent) (pb : PieceBlock) (s : Downloads)
    → 0 < length s.download_frag_queue
    → Downloading pb s
    → (s' : Downloads) × (stop_download (some t) s ≡ ok s') × GivenUp pb s s'
unfolding stop_download
stop_download_lem t pb s l d = stop_loop_lem t s.download_frag_queue pb s l d.one_block d

-- The fragment `f'` is asked for once more.
pub record AskedAgain (block_size : ℕ) (pb : PieceBlock) (now : ℕ) (f : PendingFragment)
    (rest : List PendingFragment) (s s' : Downloads) : Type 0 where
  pub queue :
      s'.download_frag_queue
      ≡ record f { tried_times = f.tried_times + 1; request_time = now } ∷ rest
  pub asked : s'.sent ≡ s.sent ++ request_of block_size s.fragment_size f ∷ []
  pub still : Downloading pb s'

pub ready :
    {A : Type 0} (b : Bool) (n : ℕ) (f : ℕ → Option A)
    → b ≡ true
    → (bc_assert b >> some n >>= f) ≡ f n
ready true n f h = refl
ready false n f h = absurd (cc)

pub send_fragment_data_request_lem :
    (t : Torrent) (f : PendingFragment) (s : Downloads)
    → t.is_ready ≡ true
    → send_fragment_data_request (some t) f s
      ≡ some (record s { sent = s.sent ++ request_of t.block_size s.fragment_size f ∷ [] })
unfolding send_fragment_data_request get_common_block_size
send_fragment_data_request_lem t f s h =
    ready t.is_ready t.block_size
      (λ n. some (record s { sent = s.sent ++ request_of n s.fragment_size f ∷ [] })) h

-- A fragment that was asked for three seconds ago.
pub record Late (p : Surroundings) (f : PendingFragment) : Type 0 where
  pub asked_for : f.downloading ≡ true
  pub long_ago : f.request_time + 3 ≤ p.now

re_download_fragment_lem :
    (p : Surroundings) (t : Torrent) (f : PendingFragment) (rest : List PendingFragment)
    (s : Downloads)
    → p.torrent ≡ some t
    → t.is_ready ≡ true
    → f.tried_times < 3
    → re_download_fragment p f rest s
      ≡ some (record s {
        download_frag_queue =
            record f { tried_times = f.tried_times + 1; request_time = p.now } ∷ rest;
        sent = s.sent ++ request_of t.block_size s.fragment_size f ∷ [];
      })
unfolding re_download_fragment
re_download_fragment_lem p t f rest s e r n =
    let f' = record f { tried_times = f.tried_times + 1; request_time = p.now } in
    let s' = record s { download_frag_queue = f' ∷ rest } in
    asserted (ltb f.tried_times 3) _ (lt→ltb f.tried_times 3 n)
    ∙ ap (λ o. send_fragment_data_request o f' s') e
    ∙ send_fragment_data_request_lem t f' s' r

module _ (p : Surroundings) (t : Torrent) (pb : PieceBlock) (f : PendingFragment)
    (rest : List PendingFragment) (s : Downloads) where
  late_lem :
      Late p f
      → time_out p (f ∷ rest) s ≡ (
          let again = re_download_fragment p f rest s in
          let failing = fail_to_download_fragment p.torrent f s in
          if leb 3 f.tried_times then failing else again)
  unfolding time_out
  late_lem l =
      if_yes f.downloading _ _ l.asked_for
      ∙ asserted (leb f.request_time p.now) _
          (le→leb f.request_time p.now (omega (arith, l.long_ago)))
      ∙ if_yes (leb 3 (p.now - f.request_time)) _ _
          (le→leb 3 (p.now - f.request_time) (omega (arith, l.long_ago)))

  -- `DownloadTimeoutProc` while a block is being downloaded, with the torrent still there and ready, and
  -- a fragment in front that was asked for at least three seconds ago, meets no assertion: a fragment
  -- that was tried less than three times is asked for once more and the download goes on; otherwise its
  -- block is given up.
  pub download_timeout_proc_lem :
      p.torrent ≡ some t
      → t.is_ready ≡ true
      → s.download_frag_queue ≡ f ∷ rest
      → Late p f
      → Downloading pb s
      → (s' : Downloads) × (download_timeout_proc p s ≡ some s')
        × ((f.tried_times < 3) × AskedAgain t.block_size pb p.now f rest s s'
            ⊎ (3 ≤ f.tried_times) × GivenUp pb s s')
  unfolding download_timeout_proc
  download_timeout_proc_lem e r q l d =
      let a : AllOf pb (f ∷ rest) = subst (AllOf pb) q d.one_block in
      let start : download_timeout_proc p s ≡ time_out p (f ∷ rest) s =
        ap (λ z. time_out p z s) q in
      elim (dec_lt f.tried_times 3) [
        | yes n ↦ (
          _,
          start
              ∙ late_lem l
              ∙ if_no (leb 3 f.tried_times) _ _ (ground arith)
              ∙ re_download_fragment_lem p t f rest s e r n,
          inl (
            n,
            record {
              queue = refl;
              asked = refl;
              still = record { valid = d.valid; one_block = a; state = d.state };
            },
          ),
        )
        | no n ↦
            (let (s', g, given) = fail_to_download_fragment_lem t f pb s a.0 d in
              (
                s',
                start
                    ∙ late_lem l
                    ∙ if_yes (leb 3 f.tried_times) _ _ (le→leb 3 f.tried_times (omega (arith, n)))
                    ∙ ap (λ o. fail_to_download_fragment o f s) e
                    ∙ g,
                inr (omega (arith, n), given),
              ))
      ]

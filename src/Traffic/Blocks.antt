-- ===== src/Traffic/Blocks.antt =====
-- rcs/src/frame/traffic_controller.cpp: how a block is downloaded fragment by fragment.
use resource_cache.Common.{
  asserted, refl, ℕ, ◌+◌, ◌≡◌, ap, sym, ◌∙◌, Bool, true, false, Option, none, some, List, [], ◌∷◌,
  ◌++◌, append_assoc, append-nil, map, length, if◌then◌else◌, ◌>>=◌, arith, subst,
}
use resource_cache.Torrent.{Torrent}
use resource_cache.Picker.Pieces.{PieceBlock}
use resource_cache.Traffic.Speed.{SpeedQueue, is_speed_limited, count_bytes}
use resource_cache.Traffic.Fragments.{PendingFragment}
use resource_cache.Traffic.Download.{
  Downloads, Surroundings, request_of, try_send_data_request, is_equal, take_front, on_response,
  received_data_response, received_all,
}
use resource_cache.Traffic.Stopping.{AllOf, Downloading}
use resource_cache.Traffic.Responses.{
  Aligned, is_equal_request, Arrived, take_last, after_first, take_first, send_front_lem,
  try_send_lem,
}

-- A fragment in front that was asked for, and others that were not.
abbrev pub AllNew : ℕ → List PendingFragment → Type 0
AllNew size [] = Unit
AllNew size (f ∷ fs) = (f.downloading ≡ false) × Aligned size f × AllNew size fs

-- The speed never reaches its limits while the fragments arrive.
abbrev pub Unlimited : ℕ → ℕ → SpeedQueue → List PendingFragment → Type 0
Unlimited limit current_limit q [] = Unit
Unlimited limit current_limit q (f ∷ fs) =
    (is_speed_limited limit current_limit (count_bytes f.frag_len q) ≡ false)
    × Unlimited limit current_limit (count_bytes f.frag_len q) fs

-- A fragment that is asked for at the time `now`.
abbrev pub asked : ℕ → PendingFragment → PendingFragment
asked now g = record g { downloading = true; request_time = now; tried_times = g.tried_times + 1 }

chosen :
    {A : Type 0} (m : Option Bool) (x y : Option A)
    → m ≡ some true
    → (m >>= λ b. if b then x else y) ≡ x
chosen m x y e = rw e refl

taken : {A B : Type 0} (m : Option A) (a : A) (f : A → Option B) → m ≡ some a → (m >>= f) ≡ f a
taken m a f e = rw e refl

module _ (t : Torrent) (r : t.is_ready ≡ true) (size : ℕ) where
  -- The response to the request of the fragment in front is taken.
  on_response_lem :
      (p : Surroundings) (f : PendingFragment) (rest : List PendingFragment) (s s' : Downloads)
      → p.torrent ≡ some t
      → f.downloading ≡ true
      → Aligned size f
      → s.download_frag_queue ≡ f ∷ rest
      → take_front (some t) (request_of t.block_size size f) f rest s ≡ some s'
      → received_data_response p (request_of t.block_size size f) s ≡ try_send_data_request p s'
  unfolding received_data_response on_response
  on_response_lem p f rest s s' e d a q h =
      ap (λ z. on_response p (request_of t.block_size size f) z s) q
      ∙ asserted f.downloading _ d
      ∙ chosen (is_equal p.torrent f (request_of t.block_size size f))
          (take_front p.torrent (request_of t.block_size size f) f rest s
            >>= try_send_data_request p)
          (some s)
          (ap (λ o. is_equal o f (request_of t.block_size size f)) e
            ∙ is_equal_request t size f r a)
      ∙ taken (take_front p.torrent (request_of t.block_size size f) f rest s) s'
          (try_send_data_request p)
          (ap (λ o. take_front o (request_of t.block_size size f) f rest s) e ∙ h)

  -- The block is there, and the requests of `fs` were sent since `s`.
  pub record Downloaded (pb : PieceBlock) (fs : List PendingFragment) (s s' : Downloads)
      : Type 0 where
    pub arrived : Arrived pb s s'
    pub all_sent : s'.sent ≡ s.sent ++ map (request_of t.block_size size) fs

  -- The response to the fragment in front, when another one of the block is still missing.
  next_lem :
      (p : Surroundings) (pb : PieceBlock) (f g : PendingFragment) (rest : List PendingFragment)
      (s : Downloads)
      → p.torrent ≡ some t
      → p.is_proxy ≡ false
      → f.downloading ≡ true
      → Aligned size f
      → g.downloading ≡ false
      → s.download_block_failed ≡ false
      → s.fragment_size ≡ size
      → s.download_frag_queue ≡ f ∷ g ∷ rest
      → AllOf pb (f ∷ g ∷ rest)
      → is_speed_limited s.download_speed_limit s.current_download_speed_limit
          (count_bytes f.frag_len s.download_speed)
        ≡ false
      → received_data_response p (request_of t.block_size size f) s
        ≡ some (record s {
          download_frag_queue = asked p.now g ∷ rest;
          download_speed = count_bytes f.frag_len s.download_speed;
          sent = s.sent ++ request_of t.block_size size g ∷ [];
        })
  next_lem p pb f g rest s e x d a n k z q b l =
      let req = request_of t.block_size size f in
      on_response_lem p f (g ∷ rest) s (after_first req (g ∷ rest) s) e d a q
        (take_first t pb req f g rest s b.0 b.1.0)
      ∙ try_send_lem p (after_first req (g ∷ rest) s) g rest refl k x l
      ∙ send_front_lem p t g rest (after_first req (g ∷ rest) s) e r n
      ∙ ap
          (λ w. some (record s {
            download_frag_queue = asked p.now g ∷ rest;
            download_speed = count_bytes f.frag_len s.download_speed;
            sent = s.sent ++ request_of t.block_size w g ∷ [];
          }))
          z

  -- A connection whose torrent is still there and ready, whose peer is no proxy, that has given up no
  -- block and whose speed stays below its limits, downloads a block: the fragment `f` in front was asked
  -- for and those of `rest` were not. When their responses come one after another, each as it was asked
  -- for, no assertion fails, the fragments of `rest` are asked for in their order, each once and when the
  -- one before it has come, and with the last response the block is finished in the picker. Then the
  -- connection goes on to `TrySendDataRequest`.
  pub received_all-block :
      (rest : List PendingFragment) (p : ℕ → Surroundings) (i : ℕ) (pb : PieceBlock)
      (f : PendingFragment) (s : Downloads)
      → ((n : ℕ) → (p n).torrent ≡ some t)
      → ((n : ℕ) → (p n).is_proxy ≡ false)
      → Downloading pb s
      → s.download_frag_queue ≡ f ∷ rest
      → f.downloading ≡ true
      → Aligned size f
      → AllNew size rest
      → s.download_block_failed ≡ false
      → s.fragment_size ≡ size
      → Unlimited s.download_speed_limit s.current_download_speed_limit s.download_speed (f ∷ rest)
      → (s' : Downloads) × (received_all p i (map (request_of t.block_size size) (f ∷ rest)) s
          ≡ try_send_data_request (p (i + length rest)) s')
        × Downloaded pb rest s s'
  received_all-block [] p i pb f s e x d q a al n k z l =
      let (s', h, arrived, same) =
        take_last t pb (request_of t.block_size size f) f s (subst (AllOf pb) q d.one_block).0 d in
      (
        s',
        last _
            ∙ on_response_lem (p i) f [] s s' (e i) a al q h
            ∙ ap (λ j. try_send_data_request (p j) s') (omega arith),
        record { arrived = arrived; all_sent = same ∙ sym (append-nil s.sent) },
      )
    where
      last : (m : Option Downloads) → (m >>= λ s'. some s') ≡ m
      last none = refl
      last (some s') = refl
  received_all-block (g ∷ gs) p i pb f s e x d q a al n k z l =
      let b = subst (AllOf pb) q d.one_block in
      let s₁ = record s {
        download_frag_queue = asked (p i).now g ∷ gs;
        download_speed = count_bytes f.frag_len s.download_speed;
        sent = s.sent ++ request_of t.block_size size g ∷ [];
      } in
      let (s', h, w) =
        received_all-block gs p (i + 1) pb (asked (p i).now g) s₁ e x
          (record { valid = d.valid; one_block = b.1; state = d.state }) refl refl n.1 n.2 k z
          l.1 in
      (
        s',
        taken _ s₁ (received_all p (i + 1) (map (request_of t.block_size size) (g ∷ gs)))
              (next_lem (p i) pb f g gs s (e i) (x i) a al n.0 k z q b l.0)
            ∙ h
            ∙ ap (λ j. try_send_data_request (p j) s') (omega arith),
        record {
          arrived = record {
            valid = w.arrived.valid;
            finished = w.arrived.finished;
            same_map = w.arrived.same_map;
            emptied = w.arrived.emptied;
          };
          all_sent =
              w.all_sent
              ∙ append_assoc s.sent (request_of t.block_size size g ∷ [])
                  (map (request_of t.block_size size) gs);
        },
      )

-- ===== src/DistriDownload/Assigned.antt =====
-- rcs/src/frame/distri_download_mgr.cpp: a sponsor's assigned piece is being downloaded in the picker.
use resource_cache.Common.{
  refl, ℕ, ◌<◌, ◌≡◌, ◌⊎◌, inl, inr, ap, sym, ◌∙◌, subst, Bool, true, false, not, ◌||◌, Option, none,
  some, List, [], ◌∷◌, length, arith, ◌==◌, if◌then◌else◌, Bool-cases, ◌>>=◌, if_yes, if_no,
}
use resource_cache.Torrent.{Torrent}
use resource_cache.Picker.State.{PiecePicker}
use resource_cache.Picker.Choose.{pick_pieces}
use resource_cache.Picker.Mark.{mark_piece_failed}
use resource_cache.Picker.Containers.{occurs}
use resource_cache.Picker.Invariant.{IsValid}
use resource_cache.Picker.Construct.{Workable}
use resource_cache.Picker.Verify.{Owns, mark_piece_failed_lem}
use resource_cache.Picker.Whole.{Takes, pick_pieces-Takes, find_piece-occurs}
use resource_cache.DistriDownload.Messages.{assign_piece}
use resource_cache.DistriDownload.Manager.{
  Manager, Around, is_sponsor, contains, erase, insert_piece, assign_each, had_piece, send_msg,
  fail_piece, assign_picked, assign_pieces, try_assign_pieces, on_have_piece,
}

-- The picker is valid and of the torrent, and at most one piece is assigned, which is being downloaded.
pub record Assigned (t : Torrent) (s : Manager) : Type 0 where
  pub picker : PiecePicker
  pub there : s.picker ≡ some picker
  pub valid : IsValid picker
  pub owns : Owns t picker
  pub one_piece :
      (s.assigned_pieces ≡ [])
      ⊎ ((piece : ℕ) × (s.assigned_pieces ≡ piece ∷ [])
          × (0 < occurs piece picker.downloading_pieces))

send_msg-picker :
    (a : Around) (msg_type piece : ℕ) (s : Manager)
    → (send_msg a msg_type piece s).picker ≡ s.picker
unfolding send_msg
send_msg-picker a msg_type piece s =
    elim a.torrent
      as (λ o. (elim o as (λ _. Manager) [ none ↦ s | some t ↦ _ ]).picker ≡ s.picker) [
        | none ↦ refl
        | some t ↦ refl
      ]

assign_picked-Assigned :
    (t : Torrent) (a : Around) (s : Manager) (picker picker' : PiecePicker) (pieces : List ℕ)
    → s.assigned_pieces ≡ []
    → Owns t picker
    → Takes picker picker' pieces
    → Assigned t (assign_picked a (picker', pieces) s)
unfolding assign_picked assign_each send_msg
assign_picked-Assigned t a s picker picker' [] e o k = record {
  picker = picker';
  there = refl;
  valid = k.valid;
  owns = ap length k.same_map ∙ o;
  one_piece = inl e;
}
assign_picked-Assigned t a s picker picker' (p ∷ []) e o k = record {
  picker = picker';
  there = send_msg-picker a assign_piece p (record s { picker = some picker' });
  valid = k.valid;
  owns = ap length k.same_map ∙ o;
  one_piece = inr (p, ap (insert_piece p) e, held k.taken);
}
  where
    held :
        ((p ∷ [] ≡ [])
          ⊎ ((piece : ℕ) × (p ∷ [] ≡ piece ∷ []) × (0 < occurs piece picker'.downloading_pieces)))
        → 0 < occurs p picker'.downloading_pieces
    held (inl q) = absurd (cc)
    held (inr (piece, q, h)) =
        let same : p ≡ piece = cc in
        subst (λ i. 0 < occurs i picker'.downloading_pieces) (sym same) h
assign_picked-Assigned t a s picker picker' (p ∷ p' ∷ ps) e o k = absurd (several k.taken)
  where
    several :
        ((p ∷ p' ∷ ps ≡ [])
          ⊎ ((piece : ℕ) × (p ∷ p' ∷ ps ≡ piece ∷ [])
              × (0 < occurs piece picker'.downloading_pieces)))
        → ⊥
    several (inl q) = cc
    several (inr (piece, q, h)) = cc

assign_pieces-Assigned :
    (t : Torrent) (a : Around) (s : Manager)
    → s.assigned_pieces ≡ []
    → Assigned t s
    → Assigned t (assign_pieces a s)
unfolding assign_pieces
assign_pieces-Assigned t a s e g = with_picker s.picker g.there
  where
    with_picker :
        (o : Option PiecePicker)
        → o ≡ some g.picker
        → Assigned t (elim o as (λ _. Manager) [
          | none ↦ s
          | some picker ↦
              if length a.piece_map == 0
              then s
              else assign_picked a (pick_pieces picker a.piece_map 1) s
        ])
    with_picker none q = absurd (cc)
    with_picker (some picker) q =
        let same : g.picker ≡ picker = cc in
        elim (length a.piece_map == 0)
          as (λ b.
            Assigned t (if b then s else assign_picked a (pick_pieces picker a.piece_map 1) s)) [
              | true ↦ g
              | false ↦
                  assign_picked-Assigned t a s picker _ _ e (subst (Owns t) same g.owns)
                    (pick_pieces-Takes picker a.piece_map (subst IsValid same g.valid))
            ]

-- `TryAssignPieces` keeps what is assigned, or assigns a piece that is being downloaded from then on.
pub try_assign_pieces-Assigned :
    (t : Torrent) (a : Around) (s : Manager) → Assigned t s → Assigned t (try_assign_pieces a s)
unfolding try_assign_pieces
try_assign_pieces-Assigned t a s g =
    guarded s.assigned_pieces refl (is_sponsor s.conn_type) a.torrent
  where
    if_ready :
        (t' : Torrent)
        → s.assigned_pieces ≡ []
        → Assigned t (if t'.is_ready then assign_pieces a s else s)
    if_ready t' e = elim t'.is_ready as (λ b. Assigned t (if b then assign_pieces a s else s)) [
      | true ↦ assign_pieces-Assigned t a s e g
      | false ↦ g
    ]

    guarded :
        (ps : List ℕ)
        → s.assigned_pieces ≡ ps
        → (b : Bool) (o : Option Torrent)
        → Assigned t (
            if not b || not (length ps == 0) then s else (elim o as (λ _. Manager) [
              | none ↦ s
              | some t ↦ if t.is_ready then assign_pieces a s else s
            ]))
    guarded ps e false o = g
    guarded [] e true none = g
    guarded [] e true (some t') = if_ready t' e
    guarded (p ∷ ps) e true o = let q : (length (p ∷ ps) == 0) ≡ false = ground arith in rw q g

-- The piece that was assigned can be marked failed; then nothing is assigned.
fail_piece-Assigned :
    (t : Torrent) (s : Manager) (piece : ℕ)
    → Workable t
    → Assigned t s
    → s.assigned_pieces ≡ piece ∷ []
    → (s' : Manager) × (fail_piece t piece (record s { assigned_pieces = [] }) ≡ some s')
      × Assigned t s'
unfolding fail_piece
fail_piece-Assigned t s piece w g e =
    let (d, f) = find_piece-occurs piece g.picker.downloading_pieces (held g.one_piece) in
    let (picker, q, v, m) = mark_piece_failed_lem g.picker g.valid t piece d w g.owns f in
    (
      record s { assigned_pieces = []; picker = some picker },
      failing s.picker g.there picker q,
      record {
        picker = picker;
        there = refl;
        valid = v;
        owns = ap length m ∙ g.owns;
        one_piece = inl refl;
      },
    )
  where
    failing :
        (o : Option PiecePicker)
        → o ≡ some g.picker
        → (picker : PiecePicker) → mark_piece_failed (some t) g.picker piece ≡ some picker
        → (o >>= λ p. mark_piece_failed (some t) p piece >>= λ p'.
            some (record s { assigned_pieces = []; picker = some p' }))
          ≡ some (record s { assigned_pieces = []; picker = some picker })
    failing o h picker q = rw (h, q) refl

    held :
        ((s.assigned_pieces ≡ [])
          ⊎ ((p : ℕ) × (s.assigned_pieces ≡ p ∷ []) × (0 < occurs p g.picker.downloading_pieces)))
        → 0 < occurs piece g.picker.downloading_pieces
    held (inl q) = absurd (cc)
    held (inr (p, q, h)) =
        let same : p ≡ piece = cc in subst (λ i. 0 < occurs i g.picker.downloading_pieces) same h

had_piece-Assigned :
    (t : Torrent) (a : Around) (s : Manager) (piece : ℕ)
    → Workable t
    → Assigned t s
    → contains piece s.assigned_pieces ≡ true
    → (s' : Manager) × (had_piece a piece (some t) s ≡ some s') × Assigned t s'
unfolding had_piece
had_piece-Assigned t a s piece w g c = of_one g.one_piece
  where
    then_assign :
        (m : Option Manager) (s₁ : Manager)
        → m ≡ some s₁
        → (m >>= λ s'. some (try_assign_pieces a s')) ≡ some (try_assign_pieces a s₁)
    then_assign m s₁ e = rw e refl

    only : (p : ℕ) → contains piece (p ∷ []) ≡ true → p ≡ piece
    only p h = ground arith

    erased : (p : ℕ) → p ≡ piece → erase piece (p ∷ []) ≡ []
    erased p h = ground arith

    of_one :
        ((s.assigned_pieces ≡ [])
          ⊎ ((p : ℕ) × (s.assigned_pieces ≡ p ∷ []) × (0 < occurs p g.picker.downloading_pieces)))
        → (s' : Manager) × (had_piece a piece (some t) s ≡ some s') × Assigned t s'
    of_one (inl q) = absurd (cc (sym (ap (contains piece) q) ∙ c))
    of_one (inr (p, q, h)) =
        let same = only p (sym (ap (contains piece) q) ∙ c) in
        let (s₁, f, k) = fail_piece-Assigned t s piece w g (q ∙ ap (λ i. i ∷ []) same) in
        (
          try_assign_pieces a s₁,
          if_yes (contains piece s.assigned_pieces) _ _ c
              ∙ then_assign _ s₁ (
                  ap (λ r. fail_piece t piece (record s { assigned_pieces = r }))
                    (ap (erase piece) q ∙ erased p same)
                  ∙ f),
          try_assign_pieces-Assigned t a s₁ k,
        )

-- When a connection whose torrent is still there hears that its peer has a piece, no assertion fails, and
-- what the connection has assigned to the peer, a piece at most, is being downloaded in a valid picker,
-- before and afterwards, though the piece may be marked failed and another one assigned.
pub on_have_piece-Assigned :
    (t : Torrent) (a : Around) (s : Manager) (piece : ℕ)
    → Workable t
    → a.torrent ≡ some t
    → Assigned t s
    → (s' : Manager) × (on_have_piece a piece s ≡ some s') × Assigned t s'
unfolding on_have_piece had_piece
on_have_piece-Assigned t a s piece w e g = elim (Bool-cases (is_sponsor s.conn_type)) [
  | inr n ↦ (s, if_no (is_sponsor s.conn_type) _ _ n, g)
  | inl y ↦ elim (Bool-cases (contains piece s.assigned_pieces)) [
    | inr n ↦ (s, of_torrent y ∙ other n, g)
    | inl c ↦ (let (s', f, k) = had_piece-Assigned t a s piece w g c in (s', of_torrent y ∙ f, k))
  ]
]
  where
    of_torrent :
        is_sponsor s.conn_type ≡ true → on_have_piece a piece s ≡ had_piece a piece (some t) s
    of_torrent y = if_yes (is_sponsor s.conn_type) _ _ y ∙ ap (λ o. had_piece a piece o s) e

    other : contains piece s.assigned_pieces ≡ false → had_piece a piece (some t) s ≡ some s
    other n = if_no (contains piece s.assigned_pieces) _ _ n

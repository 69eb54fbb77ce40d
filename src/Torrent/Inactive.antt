-- ===== src/Torrent/Inactive.antt =====
-- rcs/src/frame/torrent.cpp: when a torrent counts as inactive.
use resource_cache.Common.{
  refl, ap, ◌∙◌, sym, ℕ, zero, suc, ◌+◌, ◌^◌, ◌≤◌, ◌<◌, ◌≡◌, ◌↔◌, Bool, true, false, ◌&&◌, ◌||◌,
  List, [], ◌∷◌, ◌++◌, length, replicate, leb, leb→le, le→leb, ◌==◌, if◌then◌else◌, arith,
}
use resource_cache.Torrent.Lifecycle.{
  Lifecycle, update_alive_time_without_conn, is_inactive, on_torrent_tick,
}

-- Ticks, by the number of connections that each finds, the latest first.
abbrev pub torrent_ticks : List ℕ → Lifecycle → Lifecycle
torrent_ticks [] t = t
torrent_ticks (conns ∷ before) t = on_torrent_tick conns (torrent_ticks before t)

-- The ticks since the last one that found a connection.
idle : List ℕ → ℕ
idle [] = 0
idle (conns ∷ before) = if conns == 0 then idle before + 1 else 0

idle-le : (cs : List ℕ) → idle cs ≤ length cs
unfolding idle
idle-le [] = omega arith
idle-le (c ∷ cs) = ground (arith, idle-le cs)

-- What ticks leave alone, and what they count.
ticks_lem :
    (cs : List ℕ) (t : Lifecycle)
    → t.alive_time_without_conn ≡ 0
    → length cs < 2 ^ 32
    → ((torrent_ticks cs t).alive_time_without_conn ≡ idle cs)
      × ((torrent_ticks cs t).is_proxy ≡ t.is_proxy)
      × ((torrent_ticks cs t).max_alive_time_without_conn ≡ t.max_alive_time_without_conn)
unfolding idle on_torrent_tick update_alive_time_without_conn
ticks_lem [] t z l = (z, refl, refl)
ticks_lem (c ∷ cs) t z l =
    let (count, proxy, most) = ticks_lem cs t z (omega arith) in
    let le = idle-le cs in (ground arith, proxy, most)

head_eq : {a b : ℕ} {xs ys : List ℕ} → (a ∷ xs) ≡ (b ∷ ys) → a ≡ b
head_eq e = cc

idle_iff :
    (m : ℕ) (cs : List ℕ) → (m ≤ idle cs) ↔ ((before : List ℕ) × (cs ≡ replicate m 0 ++ before))
unfolding idle
idle_iff zero cs = ((λ h. (cs, refl)), (λ h. omega arith))
idle_iff (suc m) [] = ((λ h. absurd (omega arith)), (λ h. absurd (cc)))
idle_iff (suc m) (zero ∷ cs) =
    let ih = idle_iff m cs in
    (
      (λ h. let (before, e) = ih.0 (ground arith) in (before, ap (λ l. 0 ∷ l) e)),
      (λ p.
          let (before, e) = p in
          let inside : cs ≡ replicate m 0 ++ before = cc in
          let le = ih.1 (before, inside) in ground arith),
    )
idle_iff (suc m) (suc c ∷ cs) =
    ((λ h. absurd (ground arith)), (λ p. let e : suc c ≡ 0 = head_eq (p.1) in absurd (omega arith)))

-- A torrent that is no proxy and whose time without connections begins at 0 is inactive after fewer than 2^32 ticks exactly when the last ones, as many as its limit says, all found no connection.
pub is_inactive-on_torrent_tick :
    (t : Lifecycle) (cs : List ℕ) (proxies : ℕ)
    → t.is_proxy ≡ false
    → t.alive_time_without_conn ≡ 0
    → length cs < 2 ^ 32
    → (is_inactive proxies (torrent_ticks cs t) ≡ true)
      ↔ ((before : List ℕ) × (cs ≡ replicate t.max_alive_time_without_conn 0 ++ before))
unfolding is_inactive
is_inactive-on_torrent_tick t cs proxies no_proxy z l =
    let (count, proxy, most) = ticks_lem cs t z l in
    let test : is_inactive proxies (torrent_ticks cs t)
        ≡ leb t.max_alive_time_without_conn (idle cs) =
      test_lem _ _ _ _ _ _ (proxy ∙ no_proxy) most count in
    let both = idle_iff t.max_alive_time_without_conn cs in
    ((λ h. both.0 (leb→le _ _ (sym test ∙ h))), (λ p. test ∙ le→leb _ _ (both.1 p)))
  where
    test_lem :
        (proxy none_left : Bool) (m n m' n' : ℕ)
        → proxy ≡ false
        → m ≡ m'
        → n ≡ n'
        → ((proxy && none_left) || leb m n) ≡ leb m' n'
    test_lem proxy none_left m n m' n' e em en = rw (e, em, en) refl

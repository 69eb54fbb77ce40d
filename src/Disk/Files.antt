-- ===== src/Disk/Files.antt =====
-- pub/file.cpp, as far as its callers rely on it: a file that fails nowhere keeps what is written.
use resource_cache.Common.{
  refl, sym, ap, subst, ◌∙◌, ℕ, zero, suc, ◌+◌, ◌*◌, ◌^◌, ◌≤◌, ◌<◌, ◌≡◌, ◌⊎◌, true, false, some,
  List, [], ◌∷◌, ◌++◌, length, ◌==◌, arith,
}
use resource_cache.Torrent.{Torrent, get_piece_size}
use resource_cache.Torrent.Blocks.{IsValid}
use resource_cache.Disk.Storage.{FileOper, io_read_data, io_write_data}
use resource_cache.Disk.Stored.{io_read_data_lem, io_write_data_lem}

-- A file as its position, its size and its bytes.
pub record View (F : Type 0) : Type 0 where
  pub pos : F → ℕ
  pub size : F → ℕ
  pub byte_at : F → ℕ → ℕ

abbrev pub bytes_from : (ℕ → ℕ) → ℕ → ℕ → List ℕ
bytes_from g p zero = []
bytes_from g p (suc n) = g p ∷ bytes_from g (p + 1) n

-- What POSIX says of `lseek`, `read` and `write` on a regular file, where no call fails or falls short.
pub record IsReliable {F : Type 0} (o : FileOper F) (view : View F) : Type 0 where
  pub seeks :
      (p : ℕ) (f : F)
      → (f' : F) × (o.seek p f ≡ (false, p, f'))
        × (view.pos f' ≡ p)
        × (view.size f' ≡ view.size f)
        × ((i : ℕ) → view.byte_at f' i ≡ view.byte_at f i)
  pub reads :
      (n : ℕ) (f : F)
      → view.pos f + n ≤ view.size f
      → (f' : F) × (o.read n f ≡ (false, n, bytes_from (view.byte_at f) (view.pos f) n, f'))
        × (view.size f' ≡ view.size f)
        × ((i : ℕ) → view.byte_at f' i ≡ view.byte_at f i)
  pub writes :
      (bytes : List ℕ) (f : F)
      → (f' : F) × (o.write bytes f ≡ (false, length bytes, tt, f'))
        × (bytes_from (view.byte_at f') (view.pos f) (length bytes) ≡ bytes)
        × ((i : ℕ)
            → (i < view.pos f) ⊎ (view.pos f + length bytes ≤ i)
            → view.byte_at f' i ≡ view.byte_at f i)
        × (view.size f ≤ view.size f')
        × (view.pos f + length bytes ≤ view.size f')

pub bytes_from_same :
    (g g' : ℕ → ℕ) (p n : ℕ)
    → ((i : ℕ) → p ≤ i → i < p + n → g i ≡ g' i)
    → bytes_from g p n ≡ bytes_from g' p n
bytes_from_same g g' p zero e = refl
bytes_from_same g g' p (suc n) e =
    let here = e p (omega arith) (omega arith) in
    let there = bytes_from_same g g' (p + 1) n (λ i l u. e i (omega arith) (omega arith)) in
    λ j. here j ∷ there j

pub bytes_from-add :
    (g : ℕ → ℕ) (p n m k q : ℕ)
    → k ≡ n + m
    → q ≡ p + n
    → bytes_from g p k ≡ bytes_from g p n ++ bytes_from g q m
bytes_from-add g p zero m k q h e =
    let same : p ≡ q = omega arith in ap (bytes_from g p) h' ∙ ap (λ r. bytes_from g r m) same
  where
    h' : k ≡ m
    h' = omega arith
bytes_from-add g p (suc n) m zero q h e = absurd (omega arith)
bytes_from-add g p (suc n) m (suc k) q h e =
    ap (λ t. g p ∷ t) (bytes_from-add g (p + 1) n m k q (omega arith) (omega arith))

pub length-bytes_from : (g : ℕ → ℕ) (p n : ℕ) → length (bytes_from g p n) ≡ n
length-bytes_from g p zero = refl
length-bytes_from g p (suc n) = ap suc (length-bytes_from g (p + 1) n)

==_self : (n : ℕ) → (n == n) ≡ true
==_self n = ground arith

module _ {F : Type 0} (o : FileOper F) (view : View F) (r : IsReliable o view) where
  module _ (t : Torrent) (v : IsValid t) (piece size : ℕ) where
    pub io_write_data-stored :
        (buf : List ℕ) (offset : ℕ) (f : F)
        → get_piece_size t piece ≡ some size
        → offset + length buf ≤ size
        → 0 < length buf
        → piece < 2 ^ 31
        → (f' : F) × (io_write_data o t buf piece offset f ≡ some (length buf, f'))
          × (bytes_from (view.byte_at f') (piece * t.piece_size + offset) (length buf) ≡ buf)
          × ((i : ℕ)
              → (i < piece * t.piece_size + offset)
                ⊎ (piece * t.piece_size + offset + length buf ≤ i)
              → view.byte_at f' i ≡ view.byte_at f i)
          × (view.size f ≤ view.size f')
          × (piece * t.piece_size + offset + length buf ≤ view.size f')
    io_write_data-stored buf offset f e le pos few =
        let p = piece * t.piece_size + offset in
        let (f1, sought, at, size1, bytes1) = r.seeks p f in
        let (f2, wrote, has, others, grows, enough) = r.writes buf f1 in
        (
          f2,
          io_write_data_lem o t v piece size buf offset f e le pos few
              ∙ rw (sought, ==_self p, wrote, ==_self (length buf)) refl,
          subst (λ q. bytes_from (view.byte_at f2) q (length buf) ≡ buf) at has,
          λ i out. others i (subst (λ q. (i < q) ⊎ (q + length buf ≤ i)) (sym at) out) ∙ bytes1 i,
          omega arith,
          omega arith,
        )

    pub io_read_data-stored :
        (n offset : ℕ) (f : F)
        → get_piece_size t piece ≡ some size
        → offset + n ≤ size
        → 0 < n
        → piece < 2 ^ 31
        → piece * t.piece_size + offset + n ≤ view.size f
        → (f' : F) × (io_read_data o t piece offset n f
            ≡ some (n, bytes_from (view.byte_at f) (piece * t.piece_size + offset) n, f'))
          × (view.size f' ≡ view.size f)
          × ((i : ℕ) → view.byte_at f' i ≡ view.byte_at f i)
    io_read_data-stored n offset f e le pos few there =
        let p = piece * t.piece_size + offset in
        let (f1, sought, at, size1, bytes1) = r.seeks p f in
        let (f2, read, size2, bytes2) = r.reads n f1 (omega arith) in
        let got : bytes_from (view.byte_at f1) (view.pos f1) n ≡ bytes_from (view.byte_at f) p n =
          ap (λ q. bytes_from (view.byte_at f1) q n) at
          ∙ bytes_from_same (view.byte_at f1) (view.byte_at f) p n (λ i _ _. bytes1 i) in
        (
          f2,
          io_read_data_lem o t v piece size offset n f e le pos few
              ∙ rw (sought, ==_self p, read, ==_self n) (ap (λ l. some (n, l, f2)) got),
          size2 ∙ size1,
          λ i. bytes2 i ∙ bytes1 i,
        )

-- ===== src/Examples/Disks.antt =====
-- A thread with one torrent of two pieces, and a file that keeps what is written.
use resource_cache.Common.{
  refl, sym, ◌∙◌, ℕ, zero, suc, ◌+◌, ◌≤◌, ◌<◌, ◌≡◌, ◌⊎◌, true, false, none, some, List, [], ◌∷◌,
  length, leb, ◌==◌, if◌then◌else◌, arith, inl, inr, if_yes, if_no,
}
use resource_cache.Torrent.{Torrent, get_piece_size, calc_full_mult}
use resource_cache.Torrent.Blocks
use resource_cache.Disk.Storage.{FileOper}
use resource_cache.Disk.Pieces.{bt, CacheStatus, DiskIoThread, Host}
use resource_cache.Disk.Files.{View, bytes_from, bytes_from_same, IsReliable}
use resource_cache.Disk.Entries.{IsWorkable}
use resource_cache.Disk.Filled.{IsHeld}

some_eq : {n m : ℕ} → some n ≡ some m → n ≡ m
some_eq e = cc

none≢some : {n : ℕ} → none ≡ some n → ⊥
none≢some e = cc

pub record MemFile : Type 0 where
  pub pos : ℕ
  pub size : ℕ
  pub bytes : ℕ → ℕ

abbrev pub overlay : (ℕ → ℕ) → ℕ → List ℕ → ℕ → ℕ
overlay g p [] = g
overlay g p (b ∷ bs) = let rest = overlay g (p + 1) bs in λ i. if i == p then b else rest i

abbrev pub larger : ℕ → ℕ → ℕ
larger a b = if leb a b then b else a

abbrev pub mem_file : FileOper MemFile
mem_file = record {
  seek = λ p f. (false, p, record f { pos = p });
  read = λ n f. (false, n, bytes_from f.bytes f.pos n, record f { pos = f.pos + n });
  write = λ bs f. (
    false,
    length bs,
    tt,
    record {
      pos = f.pos + length bs;
      size = larger f.size (f.pos + length bs);
      bytes = overlay f.bytes f.pos bs;
    },
  );
}

abbrev pub mem_view : View MemFile
mem_view = record { pos = λ f. f.pos; size = λ f. f.size; byte_at = λ f. f.bytes }

overlay_outside :
    (g : ℕ → ℕ) (p : ℕ) (bs : List ℕ) (i : ℕ)
    → (i < p) ⊎ (p + length bs ≤ i)
    → overlay g p bs i ≡ g i
overlay_outside g p [] i out = refl
overlay_outside g p (b ∷ bs) i out =
    let ih =
      overlay_outside g (p + 1) bs i
        (elim out [ inl l ↦ inl (omega arith) | inr r ↦ inr (omega arith) ]) in
    let ne : (i == p) ≡ false = elim out [ inl l ↦ ground arith | inr r ↦ ground arith ] in rw ne ih

overlay_inside : (g : ℕ → ℕ) (p : ℕ) (bs : List ℕ) → bytes_from (overlay g p bs) p (length bs) ≡ bs
overlay_inside g p [] = refl
overlay_inside g p (b ∷ bs) =
    let rest = overlay g (p + 1) bs in
    let here : overlay g p (b ∷ bs) p ≡ b = if_yes (p == p) b (rest p) (ground arith) in
    let there : bytes_from (overlay g p (b ∷ bs)) (p + 1) (length bs) ≡ bs =
      bytes_from_same (overlay g p (b ∷ bs)) rest (p + 1) (length bs)
        (λ i l _. if_no (i == p) b (rest i) (ground arith))
      ∙ overlay_inside g (p + 1) bs in
    λ j. here j ∷ there j

pub mem_file-IsReliable : IsReliable mem_file mem_view
mem_file-IsReliable = record {
  seeks = λ p f. (record f { pos = p }, refl, refl, refl, λ i. refl);
  reads = λ n f le. (record f { pos = f.pos + n }, refl, refl, λ i. refl);
  writes = λ bs f. (
    record {
      pos = f.pos + length bs;
      size = larger f.size (f.pos + length bs);
      bytes = overlay f.bytes f.pos bs;
    },
    refl,
    overlay_inside f.bytes f.pos bs,
    λ i out. overlay_outside f.bytes f.pos bs i out,
    ground arith,
    ground arith,
  );
}

-- Pieces of 4 and 3 bytes, in blocks of 2.
abbrev pub tiny_torrent : Torrent
tiny_torrent = record {
  torrent_info = record {
    total_size = 7;
    piece_size = 4;
    block_size = 2;
    piece_map = false ∷ false ∷ [];
  };
  is_ready = true;
}

tiny_torrent-IsValid : Blocks.IsValid tiny_torrent
tiny_torrent-IsValid = record {
  ready = refl;
  sized = omega arith;
  cut = omega arith;
  blocked = omega arith;
  fits = omega arith;
  fits_int = omega arith;
  mapped = omega arith;
  covered = omega arith;
}

abbrev pub content : ℕ → ℕ → List ℕ
content key zero = 1 ∷ 2 ∷ 3 ∷ 4 ∷ []
content key (suc zero) = 5 ∷ 6 ∷ 7 ∷ []
content key (suc (suc piece)) = []

-- The sum of the bytes stands for their SHA-1.
abbrev pub sum : List ℕ → ℕ
sum [] = 0
sum (b ∷ bs) = b + sum bs

abbrev pub host : Host MemFile
host = record {
  file_oper = mem_file;
  torrent = λ key. tiny_torrent;
  protocol = λ key. bt;
  piece_hash = λ key. 10 ∷ 18 ∷ [];
  get_sha1 = sum;
  alloc_data_buffer = 0 ∷ 0 ∷ 0 ∷ [];
}

pub first_size : get_piece_size tiny_torrent 0 ≡ some 4
unfolding get_piece_size calc_full_mult
first_size = refl

pub second_size : get_piece_size tiny_torrent 1 ≡ some 3
unfolding get_piece_size calc_full_mult
second_size = refl

no_size : (piece : ℕ) → get_piece_size tiny_torrent (suc (suc piece)) ≡ none
unfolding get_piece_size calc_full_mult
no_size piece = ground arith

pieces_lem :
    (key piece size : ℕ)
    → get_piece_size tiny_torrent piece ≡ some size
    → length (content key piece) ≡ size
pieces_lem key zero size e = some_eq (sym first_size ∙ e)
pieces_lem key (suc zero) size e = some_eq (sym second_size ∙ e)
pieces_lem key (suc (suc piece)) size e = absurd (none≢some (sym (no_size piece) ∙ e))

pub host-IsWorkable : IsWorkable host content
host-IsWorkable = record {
  valid = λ key. tiny_torrent-IsValid;
  buffers = λ key. omega arith;
  pieces = pieces_lem;
}

abbrev pub counters : CacheStatus
counters = record {
  reads = 0;
  writes = 0;
  blocks_read = 0;
  blocks_write = 0;
  blocks_read_hit = 0;
  write_to_disk_directly = 0;
}

abbrev pub empty_file : MemFile
empty_file = record { pos = 0; size = 0; bytes = λ i. 0 }

abbrev pub empty_thread : DiskIoThread MemFile
empty_thread = record {
  read_cache_set = [];
  unfinished_write_cache = [];
  finished_write_cache = [];
  cache_status = counters;
  read_cache_limit = 1;
  write_cache_limit = 2;
  files = λ key. empty_file;
}

pub empty_thread-IsHeld : IsHeld host content empty_thread
empty_thread-IsHeld = record { unfinished = tt; finished = tt; bounded = omega arith }

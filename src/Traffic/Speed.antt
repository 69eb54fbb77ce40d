-- ===== src/Traffic/Speed.antt =====
-- rcs/src/frame/traffic_controller.cpp: the sizes of the last seconds, from which a speed is computed.
-- The download and the upload side are the same code on other fields.
use resource_cache.Common.{
  ℕ, ◌+◌, ◌-◌, ◌/◌, ◌^◌, ◌<◌, ◌≡◌, Bool, true, ◌||◌, List, [], ◌∷◌, ◌++◌, length, leb, ap, le→leb,
  if◌then◌else◌, arith,
}
use resource_cache.Torrent.{u64, sub64}

-- The queue has its front first.
pub record SpeedQueue : Type 0 where
  pub speed_queue : List ℕ
  pub total_size : ℕ
  pub total_size_in_queue : ℕ

unfoldable pub new_speed : SpeedQueue
new_speed = record { speed_queue = 0 ∷ []; total_size = 0; total_size_in_queue = 0 }

abbrev pub speed_queue_max_size : ℕ
speed_queue_max_size = 10

abbrev pub pop : List ℕ → List ℕ
pop [] = []
pop (x ∷ xs) = xs

abbrev pub front : List ℕ → ℕ
front [] = 0
front (x ∷ xs) = x

-- `UpdateDownloadSpeed` and `UpdateUploadSpeed`.
unfoldable pub update_speed : SpeedQueue → SpeedQueue
update_speed q = record q {
  total_size_in_queue = sub64 q.total_size_in_queue (front q.speed_queue);
  speed_queue =
      (if leb speed_queue_max_size (length q.speed_queue) then pop q.speed_queue else q.speed_queue)
      ++ 0 ∷ [];
}

-- `back() += length`; the queue is never empty there.
abbrev pub add_back : ℕ → List ℕ → List ℕ
add_back n [] = []
add_back n (x ∷ []) = u64 (x + n) ∷ []
add_back n (x ∷ y ∷ xs) = x ∷ add_back n (y ∷ xs)

abbrev pub back : List ℕ → ℕ
back [] = 0
back (x ∷ []) = x
back (x ∷ y ∷ xs) = back (y ∷ xs)

-- What the two sides do with the length of a response.
unfoldable pub count_bytes : ℕ → SpeedQueue → SpeedQueue
count_bytes n q = record {
  speed_queue = add_back n q.speed_queue;
  total_size = u64 (q.total_size + n);
  total_size_in_queue = u64 (q.total_size_in_queue + n);
}

-- `GetDownloadSpeed` and `GetUploadSpeed`.
unfoldable pub get_speed : SpeedQueue → ℕ
get_speed q = elim q.speed_queue [ [] ↦ 0 | x ∷ xs ↦ q.total_size_in_queue / length (x ∷ xs) ]

-- `GetCurrentSecondDownloadSpeed` and `GetCurrentSecondUploadSpeed`.
unfoldable pub get_current_second_speed : SpeedQueue → ℕ
get_current_second_speed q = back q.speed_queue

-- `IsDownloadSpeedLimited` and `IsUploadSpeedLimited`.
unfoldable pub is_speed_limited : ℕ → ℕ → SpeedQueue → Bool
is_speed_limited limit current_limit q =
    leb limit (get_speed q) || leb current_limit (get_current_second_speed q)

-- A connection that moves some bytes in its first second, and fewer than 2^63, and none in the next one, is limited after the two ticks, when its limit of the mean speed is below 2^61, whatever that of the current second: the sample of the first second is subtracted at each tick, though it stays in the queue, and the sum wraps around.
pub is_speed_limited-update_speed :
    (n limit current_limit : ℕ)
    → 0 < n
    → n < 2 ^ 63
    → limit < 2 ^ 61
    → (let q = update_speed (update_speed (count_bytes n new_speed)) in
        (q.speed_queue ≡ n ∷ 0 ∷ 0 ∷ [])
        × (q.total_size_in_queue ≡ 2 ^ 64 - n)
        × (is_speed_limited limit current_limit q ≡ true))
unfolding update_speed count_bytes new_speed is_speed_limited get_speed
is_speed_limited-update_speed n limit current_limit p h l =
    let wrapped : sub64 (sub64 (u64 (0 + n)) (u64 (0 + n))) (u64 (0 + n)) ≡ 2 ^ 64 - n =
      omega arith in
    let first : u64 (0 + n) ≡ n = omega arith in
    (
      ap (λ z. z ∷ 0 ∷ 0 ∷ []) first,
      wrapped,
      rw (wrapped, le→leb limit ((2 ^ 64 - n) / 3) (omega arith)),
    )

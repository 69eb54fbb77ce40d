-- ===== src/Filter/Bytes.antt =====
-- `PlusOne`, `MinusOne`, `Zero` and `MaxAddr` of ip_filter.hpp on byte arrays, the first byte the most
-- significant, and the lexicographic order of `std::array`: they are those of the numbers.
use resource_cache.Common.{
  ℕ, ◌+◌, ◌-◌, ◌*◌, ◌%◌, ◌<◌, ◌≡◌, refl, sym, ap, ◌∙◌, Bool, true, false, ◌&&◌, ◌||◌, List, [], ◌∷◌,
  ltb, ◌==◌, if◌then◌else◌, arith, length, replicate, Bool-cases, inl, inr, suc, zero,
}
use native.Mathlib.Nat.{mod-eq_of_lt, mod_self, add-mod_right}
use resource_cache.Filter.{plus_one, minus_one}

-- 256 to the power of the number of bytes.
abbrev pub size : List ℕ → ℕ
size [] = 1
size (b ∷ bs) = 256 * size bs

abbrev pub value : List ℕ → ℕ
value [] = 0
value (b ∷ bs) = b * size bs + value bs

abbrev pub AllBytes : List ℕ → Type 0
AllBytes [] = Unit
AllBytes (b ∷ bs) = (b < 256) × AllBytes bs

-- One turn of the loop of `PlusOne`, from the last byte on; the flag says that it has not met `break`.
plus_step : ℕ → List ℕ × Bool → List ℕ × Bool
plus_step b (bs, false) = (b ∷ bs, false)
plus_step b (bs, true) = if ltb b 255 then ((b + 1) ∷ bs, false) else (0 ∷ bs, true)

plus_loop : List ℕ → List ℕ × Bool
unfolding plus_step
plus_loop [] = ([], true)
plus_loop (b ∷ bs) = plus_step b (plus_loop bs)

pub plus_one_bytes : List ℕ → List ℕ
unfolding plus_loop
plus_one_bytes bs = (plus_loop bs).0

-- One turn of the loop of `MinusOne`.
minus_step : ℕ → List ℕ × Bool → List ℕ × Bool
minus_step b (bs, false) = (b ∷ bs, false)
minus_step b (bs, true) = if ltb 0 b then ((b - 1) ∷ bs, false) else (255 ∷ bs, true)

minus_loop : List ℕ → List ℕ × Bool
unfolding minus_step
minus_loop [] = ([], true)
minus_loop (b ∷ bs) = minus_step b (minus_loop bs)

pub minus_one_bytes : List ℕ → List ℕ
unfolding minus_loop
minus_one_bytes bs = (minus_loop bs).0

pub zero_bytes : ℕ → List ℕ
zero_bytes n = replicate n 0

pub max_bytes : ℕ → List ℕ
max_bytes n = replicate n 255

-- `operator<` of the array.
pub less : List ℕ → List ℕ → Bool
less [] bs = false
less (a ∷ as') [] = false
less (a ∷ as') (b ∷ bs) = ltb a b || (a == b && less as' bs)

abbrev carried : Bool → ℕ → ℕ
carried true n = n
carried false n = 0

value-lt-size : (bs : List ℕ) → AllBytes bs → value bs < size bs
value-lt-size [] h = omega arith
value-lt-size (b ∷ bs) h = grind (arith, value-lt-size bs h.1)

-- The loop has added one, but for what it still carries.
abbrev Added : ℕ → ℕ → List ℕ × Bool → Type 0
Added n v (bs, carry) = AllBytes bs × (size bs ≡ n) × (value bs + carried carry n ≡ v + 1)

abbrev Taken : ℕ → ℕ → List ℕ × Bool → Type 0
Taken n v (bs, borrow) = AllBytes bs × (size bs ≡ n) × (value bs + 1 ≡ v + carried borrow n)

plus_step-Added :
    (b n v : ℕ) (r : List ℕ × Bool)
    → b < 256
    → Added n v r
    → Added (256 * n) (b * n + v) (plus_step b r)
unfolding plus_step
plus_step-Added b n v (bs, false) h (all, e, f) = ((h, all), omega arith, rw e (omega arith))
plus_step-Added b n v (bs, true) h (all, e, f) = elim (Bool-cases (ltb b 255)) [
  | inl t ↦ rw t ((ground arith, all), omega arith, rw e (omega arith))
  | inr t ↦
      let q : b ≡ 255 = ground arith in
      rw t ((omega arith, all), omega arith, rw (e, q) (omega arith))
]

plus_loop-Added : (bs : List ℕ) → AllBytes bs → Added (size bs) (value bs) (plus_loop bs)
unfolding plus_loop
plus_loop-Added [] h = (tt, refl, refl)
plus_loop-Added (b ∷ bs) h = plus_step-Added b (size bs) (value bs) _ h.0 (plus_loop-Added bs h.1)

minus_step-Taken :
    (b n v : ℕ) (r : List ℕ × Bool)
    → b < 256
    → Taken n v r
    → Taken (256 * n) (b * n + v) (minus_step b r)
unfolding minus_step
minus_step-Taken b n v (bs, false) h (all, e, f) = ((h, all), omega arith, rw e (omega arith))
minus_step-Taken b n v (bs, true) h (all, e, f) = elim (Bool-cases (ltb 0 b)) [
  | inl t ↦
      rw t ((ground arith, all), omega arith, rw e (less_one b n v (value bs) (ground arith) f))
  | inr t ↦
      let q : b ≡ 0 = ground arith in
      rw t ((omega arith, all), omega arith, rw (e, q) (omega arith))
]
  where
    less_one : (b n v w : ℕ) → 0 < b → w + 1 ≡ v + n → (b - 1) * n + w + 1 ≡ b * n + v + 0
    less_one zero n v w h e = absurd (omega arith)
    less_one (suc b) n v w h e = let q : suc b - 1 ≡ b = omega arith in rw q (omega arith)

minus_loop-Taken : (bs : List ℕ) → AllBytes bs → Taken (size bs) (value bs) (minus_loop bs)
unfolding minus_loop
minus_loop-Taken [] h = (tt, refl, refl)
minus_loop-Taken (b ∷ bs) h =
    minus_step-Taken b (size bs) (value bs) _ h.0 (minus_loop-Taken bs h.1)

same_size : (as' bs : List ℕ) → length as' ≡ length bs → size as' ≡ size bs
same_size [] [] e = refl
same_size [] (b ∷ bs) e = absurd (omega arith)
same_size (a ∷ as') [] e = absurd (omega arith)
same_size (a ∷ as') (b ∷ bs) e = ap (λ n. 256 * n) (same_size as' bs (omega arith))

lt_of_digit : (a b n v w : ℕ) → a < b → v < n → a * n + v < b * n + w
lt_of_digit a b n v w h k = grind arith

-- Numbers compare by their first digits, and by the rest where these agree.
digits_order :
    (a b n m v w : ℕ)
    → n ≡ m
    → v < n
    → w < m
    → (ltb a b || (a == b && ltb v w)) ≡ ltb (a * n + v) (b * m + w)
digits_order a b n m v w e h k =
    rw (← e) (ground (arith, lt_of_digit a b n v w, lt_of_digit b a n w v))

wrap_up :
    (n v w : ℕ) (c : Bool)
    → 0 < n
    → v < n
    → w < n
    → w + carried c n ≡ v + 1
    → w ≡ (v + 1) % (n - 1 + 1)
wrap_up n v w true h k l e =
    let q : v + 1 ≡ n - 1 + 1 = omega arith in rw q (omega (arith, mod_self (n - 1 + 1)))
wrap_up n v w false h k l e =
    let q : w ≡ v + 1 = omega arith in q ∙ sym (mod-eq_of_lt (omega arith))

wrap_down :
    (n v w : ℕ) (c : Bool)
    → 0 < n
    → v < n
    → w < n
    → w + 1 ≡ v + carried c n
    → w ≡ (v + (n - 1)) % (n - 1 + 1)
wrap_down n v w true h k l e =
    let q : w ≡ v + (n - 1) = omega arith in q ∙ sym (mod-eq_of_lt (omega arith))
wrap_down n v w false h k l e =
    let q : v + (n - 1) ≡ w + (n - 1 + 1) = omega arith in
    rw (q, add-mod_right w (n - 1 + 1)) (sym (mod-eq_of_lt (omega arith)))

-- `PlusOne` and `MinusOne` on the bytes of an address are the successor and the predecessor of its number, which wrap around the address space, and again give bytes.
pub value-plus_one_bytes :
    (bs : List ℕ)
    → AllBytes bs
    → AllBytes (plus_one_bytes bs)
      × AllBytes (minus_one_bytes bs)
      × (value (plus_one_bytes bs) ≡ plus_one (size bs - 1) (value bs))
      × (value (minus_one_bytes bs) ≡ minus_one (size bs - 1) (value bs))
unfolding plus_one_bytes minus_one_bytes plus_one minus_one
value-plus_one_bytes bs h =
    let up = plus_loop-Added bs h in
    let down = minus_loop-Taken bs h in
    (
      up.0,
      down.0,
      wrap_up (size bs) (value bs) _ _ (omega (arith, value-lt-size bs h)) (value-lt-size bs h)
          (omega (arith, value-lt-size _ up.0, up.1)) up.2,
      wrap_down (size bs) (value bs) _ _ (omega (arith, value-lt-size bs h)) (value-lt-size bs h)
          (omega (arith, value-lt-size _ down.0, down.1)) down.2,
    )

-- The lexicographic order of two addresses of the same length is the order of their numbers.
pub less-ltb :
    (as' bs : List ℕ)
    → AllBytes as'
    → AllBytes bs
    → length as' ≡ length bs
    → less as' bs ≡ ltb (value as') (value bs)
unfolding less
less-ltb [] [] h k e = refl
less-ltb [] (b ∷ bs) h k e = absurd (omega arith)
less-ltb (a ∷ as') [] h k e = absurd (omega arith)
less-ltb (a ∷ as') (b ∷ bs) h k e = rw (less-ltb as' bs h.1 k.1 (omega arith)) (
    digits_order a b (size as') (size bs) (value as') (value bs) (same_size as' bs (omega arith))
      (value-lt-size as' h.1) (value-lt-size bs k.1))

-- ===== src/Filter.antt =====
-- rcs/src/pub/inc/ip_filter.hpp: `FilterImpl`, the interval map behind `IpFilter` and `PortFilter`.
-- An address is its number below `max_addr + 1`; `Filter/Bytes.antt` relates the byte arrays to it.
-- The `std::set<Range>` is the list of its ranges in increasing order of `start`; an iterator into
-- it is a cursor, with the ranges before it nearest first. The set keeps the range at address 0 that the
-- constructor puts there, so the cursor never stands before its first range.
pub mod Ranges
mod Tail
pub mod Bytes
mod Place
pub mod Rule
use resource_cache.Common.{
  ℕ, ◌+◌, ◌%◌, Bool, true, false, ◌&&◌, ◌||◌, not, Option, none, some, List, [], ◌∷◌, ite, ltb, leb,
  ◌==◌, if◌then◌else◌, ◌>>=◌, ◌>>◌, bc_assert,
}

pub record Range {ℓ} (A : Type ℓ) : Type ℓ where
  pub start : ℕ
  pub access : A

-- The set around an iterator `cur`.
pub record Cursor {ℓ} (A : Type ℓ) : Type ℓ where
  pub before : List (Range A)
  pub cur : Range A
  pub rest : List (Range A)

module _ (max_addr : ℕ) where
  pub plus_one : ℕ → ℕ
  plus_one a = (a + 1) % (max_addr + 1)

  pub minus_one : ℕ → ℕ
  minus_one a = (a + max_addr) % (max_addr + 1)

-- The whole set again.
abbrev pub zip {ℓ} : {A : Type ℓ} → List (Range A) → List (Range A) → List (Range A)
zip [] rs = rs
zip (b ∷ bs) rs = zip bs (b ∷ rs)

-- `upper_bound(addr)` and one step back: the last range, from `cur` on, that starts at most at it.
pub seek {ℓ} : {A : Type ℓ} → ℕ → List (Range A) → Range A → List (Range A) → Cursor A
seek addr before cur [] = record { before = before; cur = cur; rest = [] }
seek addr before cur (r ∷ rs) =
    let further = seek addr (cur ∷ before) r rs in
    if leb r.start addr then further else record { before = before; cur = cur; rest = r ∷ rs }

-- The ranges from `upper_bound(last)` on, with the access of the range before it.
pub tail_from {ℓ} : {A : Type ℓ} → ℕ → A → List (Range A) → A × List (Range A)
tail_from last a [] = (a, [])
tail_from last a (r ∷ rs) =
    let further = tail_from last r.access rs in if leb r.start last then further else (a, r ∷ rs)

module _ {ℓ} {A : Type ℓ} (max_addr : ℕ) (dec : Discrete A) where
  abbrev pub same : A → A → Bool
  same a b = ite (dec a b) true false

  -- `--i` where the range before `i` has the rule's access.
  pub step_back : A → List (Range A) → Range A → List (Range A) × Range A
  step_back access [] cur = ([], cur)
  step_back access (b ∷ bs) cur = if same b.access access then (bs, b) else (b ∷ bs, cur)

  -- Where the iterator `i` stands after the insertion at `first` or the step to the range before.
  pub place : ℕ → A → List (Range A) → Range A → List (Range A) × Range A
  place first access before cur =
      if not (cur.start == first) && not (same cur.access access)
      then (cur ∷ before, record { start = first; access = access })
      else step_back access before cur

  -- The range at `i` once those up to `j` are erased; the last branch is dead code.
  pub head_ranges : ℕ → A → Range A → List (Range A)
  head_ranges first access cur =
      if cur.start == first
      then record { start = first; access = access } ∷ []
      else if not (same cur.access access)
      then cur ∷ record { start = first; access = access } ∷ []
      else cur ∷ []

  -- `j` is past the end, or its range leaves a gap after `last`.
  pub gap : ℕ → List (Range A) → Bool
  gap last [] = not (last == max_addr)
  gap last (r ∷ rs) = not (minus_one max_addr r.start == last)

  -- The assertion that the code makes where there is a gap.
  pub gap_fits : ℕ → List (Range A) → Bool
  gap_fits last [] = true
  gap_fits last (r ∷ rs) = ltb last (minus_one max_addr r.start)

  -- The range that resumes the old access after `last`.
  pub resume : ℕ → A → A → List (Range A) → Option (List (Range A))
  unfolding gap gap_fits
  resume last access last_access after =
      if gap last after
      then (do
        bc_assert (gap_fits last after)
        some (
            if not (same last_access access)
            then record { start = plus_one max_addr last; access = last_access } ∷ after
            else after))
      else some after

  -- The range at `j` is erased if it says the same as the rule.
  pub merge : A → List (Range A) → List (Range A)
  merge access [] = []
  merge access (r ∷ rs) = if same r.access access then rs else r ∷ rs

  abbrev put_back : List (Range A) → List (Range A) → List (Range A) → List (Range A)
  put_back before [] after = zip before after
  put_back before (r ∷ []) after = zip before (r ∷ after)
  put_back before (r ∷ s ∷ rs) after = zip before (r ∷ s ∷ after)

  pub add_at : ℕ → ℕ → A → Cursor A → Option (List (Range A))
  unfolding place step_back head_ranges resume merge tail_from
  add_at first last access i = do
    bc_assert (leb i.cur.start last)
    let (last_access, after) = tail_from last i.cur.access i.rest
    let (before, cur) = place first access i.before i.cur
    resumed ← resume last access last_access after
    some (put_back before (head_ranges first access cur) (merge access resumed))

  -- `AddRule(first, last, access)`.
  pub add_rule : ℕ → ℕ → A → List (Range A) → Option (List (Range A))
  unfolding add_at seek
  add_rule first last access [] = none
  add_rule first last access (r ∷ rs) = do
    bc_assert (ltb first last || first == last)
    add_at first last access (seek first [] r rs)

-- The second half of the assertion that `Access` makes of its iterator.
pub before_next {ℓ} : {A : Type ℓ} → ℕ → List (Range A) → Bool
before_next addr [] = true
before_next addr (r ∷ rs) = ltb addr r.start

-- `Access(addr)`.
pub access_of {ℓ} : {A : Type ℓ} → ℕ → List (Range A) → Option A
unfolding seek before_next
access_of addr [] = none
access_of addr (r ∷ rs) = do
  let i = seek addr [] r rs
  bc_assert (leb i.cur.start addr && before_next addr i.rest)
  some i.cur.access

-- The constructor's set: one range, from `Zero()` on, with the default access.
pub initial {ℓ} : {A : Type ℓ} → A → List (Range A)
initial default = record { start = 0; access = default } ∷ []

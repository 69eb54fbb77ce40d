-- ===== src/Filter/Ranges.antt =====
-- Well-formed lists of ranges, what they say of an address, and the search for an iterator.
use resource_cache.Common.{
  ap, true, ℕ, ◌≤◌, ◌<◌, ◌≡◌, ◌≢◌, refl, sym, ◌∙◌, inl, inr, List, some, [], ◌∷◌, leb,
  if◌then◌else◌, arith, Bool-cases, leb→le, le→leb,
}
use resource_cache.Filter.{Range, Cursor, zip, seek, tail_from, access_of, before_next, initial}

module _ {ℓ} {A : Type ℓ} where
  -- What the ranges say of `addr` when `a` holds before them.
  abbrev pub at : A → ℕ → List (Range A) → A
  at a addr [] = a
  at a addr (r ∷ rs) = if leb r.start addr then at r.access addr rs else a

  abbrev pub Beyond : ℕ → List (Range A) → Type 0
  Beyond n [] = Unit
  Beyond n (r ∷ rs) = n < r.start

module _ {ℓ} {A : Type ℓ} (max_addr : ℕ) where
  -- The ranges after `r`: in order, within the address space, neighbours with distinct accesses.
  abbrev pub Above : Range A → List (Range A) → Type ℓ
  Above r [] = Unit
  Above r (s ∷ ss) = (r.start < s.start) × (s.start ≤ max_addr) × (r.access ≢ s.access) × Above s ss

  -- The ranges before `r`, nearest first, back to the one at address 0.
  abbrev pub Back : Range A → List (Range A) → Type ℓ
  Back r [] = (r.start ≡ 0) × Unit {ℓ}
  Back r (b ∷ bs) = (b.start < r.start) × (b.access ≢ r.access) × Back b bs

  abbrev pub IsValid : List (Range A) → Type ℓ
  IsValid [] = ⊥ × Unit {ℓ}
  IsValid (r ∷ rs) = (r.start ≡ 0) × Above r rs

  pub initial-IsValid : (default : A) → IsValid (initial default)
  unfolding initial
  initial-IsValid default = (refl, tt)

  pub zip-IsValid :
      (bs : List (Range A)) (c : Range A) (rs : List (Range A))
      → c.start ≤ max_addr
      → Back c bs
      → Above c rs
      → IsValid (zip bs (c ∷ rs))
  zip-IsValid [] c rs h back above = (back.0, above)
  zip-IsValid (b ∷ bs) c rs h back above =
      zip-IsValid bs b (c ∷ rs) (omega arith) back.2 (back.0, h, back.1, above)

  -- What `seek` finds.
  pub record Seeks (addr : ℕ) (l : List (Range A)) (i : Cursor A) : Type ℓ where
    pub back : Back i.cur i.before
    pub above : Above i.cur i.rest
    pub reached : i.cur.start ≤ addr
    pub beyond : Beyond addr i.rest
    pub whole : zip i.before (i.cur ∷ i.rest) ≡ l

  pub seek-Seeks :
      (addr : ℕ) (before : List (Range A)) (cur : Range A) (rs : List (Range A))
      → cur.start ≤ addr
      → Back cur before
      → Above cur rs
      → Seeks addr (zip before (cur ∷ rs)) (seek addr before cur rs)
  unfolding seek
  seek-Seeks addr before cur [] h back above = record {
    back = back;
    above = tt;
    reached = h;
    beyond = tt;
    whole = refl;
  }
  seek-Seeks addr before cur (r ∷ rs) h back above = elim (Bool-cases (leb r.start addr)) [
    | inl e ↦
        rw e (seek-Seeks addr (cur ∷ before) r rs (leb→le _ _ e) (above.0, above.2, back) above.3)
    | inr e ↦
        rw e
          (record { back = back; above = above; reached = h; beyond = ground arith; whole = refl })
  ]

pub seek_access {ℓ} :
    {A : Type ℓ} (addr : ℕ) (before : List (Range A)) (cur : Range A) (rs : List (Range A))
    → (seek addr before cur rs).cur.access ≡ at cur.access addr rs
unfolding seek
seek_access addr before cur [] = refl
seek_access addr before cur (r ∷ rs) = elim (Bool-cases (leb r.start addr)) [
  | inl e ↦ rw e (seek_access addr (cur ∷ before) r rs)
  | inr e ↦ rw e
]

pub tail_from_access {ℓ} :
    {A : Type ℓ} (last : ℕ) (a : A) (rs : List (Range A)) → (tail_from last a rs).0 ≡ at a last rs
unfolding tail_from
tail_from_access last a [] = refl
tail_from_access last a (r ∷ rs) = elim (Bool-cases (leb r.start last)) [
  | inl e ↦ rw e (tail_from_access last r.access rs)
  | inr e ↦ rw e
]

module _ {ℓ} {A : Type ℓ} where
  pub at-Beyond :
      (a : A) (n addr : ℕ) (rs : List (Range A)) → addr ≤ n → Beyond n rs → at a addr rs ≡ a
  at-Beyond a n addr [] h b = refl
  at-Beyond a n addr (r ∷ rs) h b = ground arith

module _ {ℓ} {A : Type ℓ} (max_addr : ℕ) where
  -- At and after the range `c`, what stands before it does not count.
  pub at-zip :
      (d : A) (addr : ℕ) (bs : List (Range A)) (c : Range A) (rs : List (Range A))
      → c.start ≤ addr
      → Back max_addr c bs
      → at d addr (zip bs (c ∷ rs)) ≡ at c.access addr rs
  at-zip d addr [] c rs h back = ground arith
  at-zip d addr (b ∷ bs) c rs h back =
      at-zip d addr bs b (c ∷ rs) (omega arith) back.2 ∙ ground arith

  -- Before the range `c`, it and what follows do not count.
  pub at-zip_before :
      (d : A) (addr : ℕ) (bs : List (Range A)) (c c' : Range A) (rs rs' : List (Range A))
      → addr < c.start
      → addr < c'.start
      → Back max_addr c bs
      → at d addr (zip bs (c ∷ rs)) ≡ at d addr (zip bs (c' ∷ rs'))
  at-zip_before d addr [] c c' rs rs' h h' back = absurd (omega arith)
  at-zip_before d addr (b ∷ bs) c c' rs rs' h h' back = elim (Bool-cases (leb b.start addr)) [
    | inl e ↦
        at-zip d addr bs b (c ∷ rs) (leb→le _ _ e) back.2
        ∙ (ground arith)
        ∙ sym (at-zip d addr bs b (c' ∷ rs') (leb→le _ _ e) back.2)
    | inr e ↦ at-zip_before d addr bs b b (c ∷ rs) (c' ∷ rs') (ground arith) (ground arith) back.2
  ]

  before_next-Beyond :
      (addr : ℕ) (rs : List (Range A)) → Beyond addr rs → before_next addr rs ≡ true
  unfolding before_next
  before_next-Beyond addr [] b = refl
  before_next-Beyond addr (r ∷ rs) b = ground arith

  -- `Access` never aborts on a well-formed set, and reads what the ranges say.
  pub access_of-at :
      (d : A) (addr : ℕ) (l : List (Range A))
      → IsValid max_addr l
      → access_of addr l ≡ some (at d addr l)
  unfolding access_of
  access_of-at d addr [] v = absurd v.0
  access_of-at d addr (r ∷ rs) v =
      let s = seek-Seeks max_addr addr [] r rs (omega arith) (v.0, tt) v.1 in
      rw
        (
          le→leb _ _ s.reached,
          before_next-Beyond addr (seek addr [] r rs).rest s.beyond,
          le→leb r.start addr (omega arith),
        )
        (ap some (seek_access addr [] r rs))

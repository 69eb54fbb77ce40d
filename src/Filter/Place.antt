-- ===== src/Filter/Place.antt =====
-- The beginning of `AddRule`: where it puts the rule among the ranges before it.
use resource_cache.Common.{
  ℕ, ◌≤◌, ◌<◌, ◌≡◌, ◌≢◌, refl, sym, ◌∙◌, ◌⊎◌, inl, inr, List, [], ◌∷◌, leb, ◌==◌, arith, Bool-cases,
  leb→le, if_pos, if_neg,
}
use resource_cache.Filter.{Range, zip, same, place, head_ranges, step_back, put_back}
use resource_cache.Filter.Ranges.{at, Beyond, Back, at-Beyond, at-zip, at-zip_before}

module _ {ℓ} {A : Type ℓ} (max_addr : ℕ) (dec : Discrete A) where
  -- The ranges up to the rule's, whatever `m` follows.
  pub record Placed (first : ℕ) (access : A) (before : List (Range A)) (cur : Range A)
      (rest : List (Range A)) (back : List (Range A)) (c : Range A) : Type ℓ where
    pub placed_back : Back max_addr c back
    pub placed_low : c.start ≤ first
    pub placed_access : c.access ≡ access
    pub placed_reads :
        (d : A) (x : ℕ) (m : List (Range A))
        → x < first
        → Beyond x m
        → at d x (zip back (c ∷ m)) ≡ at d x (zip before (cur ∷ rest))

  -- The ways in which the code makes room for the rule.
  Placed-new :
      (first : ℕ) (access : A) (before : List (Range A)) (cur : Range A) (rest : List (Range A))
      → Back max_addr cur before
      → cur.start < first
      → cur.access ≢ access
      → Beyond first rest
      → Placed first access before cur rest
          (cur ∷ before)
          (record { start = first; access = access })
  Placed-new first access before cur rest back h differ beyond = record {
    placed_back = (h, differ, back);
    placed_low = omega arith;
    placed_access = refl;
    placed_reads = λ d x m l b. elim (Bool-cases (leb cur.start x)) [
      | inl e ↦
          at-zip max_addr d x before cur (record { start = first; access = access } ∷ m)
            (leb→le _ _ e) back
          ∙ at-Beyond cur.access x x (record { start = first; access = access } ∷ m) (omega arith) l
          ∙ sym (
              at-zip max_addr d x before cur rest (leb→le _ _ e) back
              ∙ at-Beyond cur.access first x rest (omega arith) beyond)
      | inr e ↦
          at-zip_before max_addr d x before cur cur (record { start = first; access = access } ∷ m)
            rest (ground arith) (ground arith) back
    ];
  }

  -- The rule begins where a range does: that range takes the rule's access.
  Placed-same :
      (first : ℕ) (access : A) (before : List (Range A)) (cur : Range A) (rest : List (Range A))
      → Back max_addr (record { start = first; access = access }) before
      → Back max_addr cur before
      → cur.start ≡ first
      → Placed first access before cur rest before (record { start = first; access = access })
  Placed-same first access before cur rest back old h = record {
    placed_back = back;
    placed_low = omega arith;
    placed_access = refl;
    placed_reads = λ d x m l b.
        at-zip_before max_addr d x before (record { start = first; access = access }) cur m rest l
          (omega arith) back;
  }

  -- The rule begins inside a range that says the same already.
  Placed-inside :
      (first : ℕ) (access : A) (before : List (Range A)) (cur : Range A) (rest : List (Range A))
      → Back max_addr cur before
      → cur.start ≤ first
      → cur.access ≡ access
      → Beyond first rest
      → Placed first access before cur rest before cur
  Placed-inside first access before cur rest back h same beyond = record {
    placed_back = back;
    placed_low = h;
    placed_access = same;
    placed_reads = λ d x m l b. elim (Bool-cases (leb cur.start x)) [
      | inl e ↦
          at-zip max_addr d x before cur m (leb→le _ _ e) back
          ∙ at-Beyond cur.access x x m (omega arith) b
          ∙ sym (
              at-zip max_addr d x before cur rest (leb→le _ _ e) back
              ∙ at-Beyond cur.access first x rest (omega arith) beyond)
      | inr e ↦ at-zip_before max_addr d x before cur cur m rest (ground arith) (ground arith) back
    ];
  }

  -- The rule begins where the range before, which says the same already, ends.
  Placed-prior :
      (first : ℕ) (access : A) (p : Range A) (ps : List (Range A)) (cur : Range A)
      (rest : List (Range A))
      → Back max_addr cur (p ∷ ps)
      → cur.start ≡ first
      → p.access ≡ access
      → Placed first access (p ∷ ps) cur rest ps p
  Placed-prior first access p ps cur rest back h same = record {
    placed_back = back.2;
    placed_low = omega arith;
    placed_access = same;
    placed_reads = λ d x m l b. elim (Bool-cases (leb p.start x)) [
      | inl e ↦
          at-zip max_addr d x ps p m (leb→le _ _ e) back.2
          ∙ at-Beyond p.access x x m (omega arith) b
          ∙ sym (
              at-zip max_addr d x ps p (cur ∷ rest) (leb→le _ _ e) back.2
              ∙ at-Beyond p.access x x (cur ∷ rest) (omega arith) (omega arith))
      | inr e ↦
          at-zip_before max_addr d x ps p p m (cur ∷ rest) (ground arith) (ground arith) back.2
    ];
  }

  -- What `place` and `head_ranges` do together, as one of these ways.
  abbrev pub Places :
      ℕ → A → List (Range A) → Range A → List (Range A) → List (Range A) × Range A → Type ℓ
  Places first access before cur rest placed =
      (back : List (Range A)) × (c : Range A) × ((m : List (Range A))
        → put_back max_addr dec placed.0 (head_ranges max_addr dec first access placed.1) m
          ≡ zip back (c ∷ m))
      × Placed first access before cur rest back c

  place_here :
      (first : ℕ) (access : A) (before : List (Range A)) (cur : Range A) (rest : List (Range A))
      → Back max_addr cur before
      → cur.start ≤ first
      → Beyond first rest
      → (cur.start ≡ first) ⊎ (cur.access ≡ access)
      → (cur.start ≡ first → Back max_addr (record { start = first; access = access }) before)
      → Places first access before cur rest (before, cur)
  unfolding head_ranges
  place_here first access before cur rest back h beyond why fresh =
      elim (Bool-cases (cur.start == first)) [
        | inl e ↦ (
          before,
          record { start = first; access = access },
          λ m. rw e,
          Placed-same first access before cur rest (fresh (ground arith)) back (ground arith),
        )
        | inr e ↦
            let q : cur.access ≡ access = elim why [ inl z ↦ absurd (ground arith) | inr z ↦ z ] in
            (
              before,
              cur,
              λ m. rw (e, if_pos _ q),
              Placed-inside first access before cur rest back h q beyond,
            )
      ]

  prior_alone :
      (first : ℕ) (access : A) (bs : List (Range A)) (c : Range A) (m : List (Range A))
      → c.access ≡ access
      → c.start < first
      → put_back max_addr dec bs (head_ranges max_addr dec first access c) m ≡ zip bs (c ∷ m)
  unfolding head_ranges
  prior_alone first access bs c m q l = ground arith

  step_back-Places :
      (first : ℕ) (access : A) (before : List (Range A)) (cur : Range A) (rest : List (Range A))
      → Back max_addr cur before
      → cur.start ≤ first
      → Beyond first rest
      → (cur.start ≡ first) ⊎ (cur.access ≡ access)
      → Places first access before cur rest (step_back max_addr dec access before cur)
  unfolding step_back
  step_back-Places first access [] cur rest back h beyond why =
      place_here first access [] cur rest back h beyond why (λ e. (sym e ∙ back.0, tt))
  step_back-Places first access (b ∷ bs) cur rest back h beyond why = elim (dec b.access access) [
    | yes p ↦
        let e : cur.start ≡ first = elim why [ inl z ↦ z | inr z ↦ absurd (back.1 (p ∙ sym z)) ] in
        rw (if_pos _ p) (
          bs,
          b,
          (λ m. prior_alone first access bs b m p (omega arith)),
          Placed-prior first access b bs cur rest back e p,
        )
    | no p ↦ rw (if_neg _ p) (
        place_here first access (b ∷ bs) cur rest back h beyond why (λ e. (omega arith, p, back.2)))
  ]

  new_alone :
      (first : ℕ) (access : A) (bs : List (Range A)) (m : List (Range A))
      → let c : Range A = record { start = first; access = access } in
        put_back max_addr dec bs (head_ranges max_addr dec first access c) m ≡ zip bs (c ∷ m)
  unfolding head_ranges
  new_alone first access bs m = ground arith

  pub place-Places :
      (first : ℕ) (access : A) (before : List (Range A)) (cur : Range A) (rest : List (Range A))
      → Back max_addr cur before
      → cur.start ≤ first
      → Beyond first rest
      → Places first access before cur rest (place max_addr dec first access before cur)
  unfolding place
  place-Places first access before cur rest back h beyond = elim (Bool-cases (cur.start == first)) [
    | inl e ↦
        rw e (step_back-Places first access before cur rest back h beyond (inl (ground arith)))
    | inr e ↦ elim (dec cur.access access) [
      | yes p ↦
          rw (e, if_pos _ p) (step_back-Places first access before cur rest back h beyond (inr p))
      | no p ↦
          rw (e, if_neg _ p)
            (
              cur ∷ before,
              record { start = first; access = access },
              new_alone first access (cur ∷ before),
              Placed-new first access before cur rest back (ground arith) p beyond,
            )
    ]
  ]

-- ===== src/Filter/Tail.antt =====
-- The end of `AddRule`: what it leaves of the ranges after the rule.
use resource_cache.Common.{
  ℕ, ◌+◌, ◌-◌, ◌≤◌, ◌<◌, ◌≡◌, ◌≢◌, refl, sym, ◌∙◌, inl, inr, not, some, List, [], ◌∷◌, leb, ◌==◌,
  if◌then◌else◌, arith, Bool-cases, leb→le, lt→ltb, if_pos, if_neg,
}
use native.Mathlib.Nat.{mod-eq_of_lt}
use resource_cache.Filter.{Range, tail_from, minus_one, plus_one, same, resume, merge}
use resource_cache.Filter.Ranges.{at, Beyond, Above}

minus_one-pos : (m a : ℕ) → 0 < a → a ≤ m → minus_one m a ≡ a - 1
unfolding minus_one
minus_one-pos m a h k = grind arith

plus_one-lt : (m a : ℕ) → a < m → plus_one m a ≡ a + 1
unfolding plus_one
plus_one-lt m a h = mod-eq_of_lt (omega arith)

module _ {ℓ} {A : Type ℓ} (max_addr : ℕ) (dec : Discrete A) where
  -- What `tail_from` leaves: the ranges after `last`, and the access that holds at `last`.
  pub record Tail (last : ℕ) (r : Range A) (rs : List (Range A)) (a : A) (after : List (Range A))
      : Type ℓ where
    pub tail_beyond : Beyond last after
    pub tail_above : (c : Range A) → c.start ≤ last → c.access ≡ a → Above max_addr c after
    pub tail_reads : (x : ℕ) → last < x → at r.access x rs ≡ at a x after

  pub tail_from-Tail :
      (last : ℕ) (r : Range A) (rs : List (Range A))
      → r.start ≤ last
      → Above max_addr r rs
      → Tail last r rs (tail_from last r.access rs).0 (tail_from last r.access rs).1
  unfolding tail_from
  tail_from-Tail last r [] h above = record {
    tail_beyond = tt;
    tail_above = λ c _ _. tt;
    tail_reads = λ x _. refl;
  }
  tail_from-Tail last r (s ∷ ss) h above = elim (Bool-cases (leb s.start last)) [
    | inl e ↦
        let t = tail_from-Tail last s ss (leb→le _ _ e) above.3 in
        rw e (record {
          tail_beyond = t.tail_beyond;
          tail_above = t.tail_above;
          tail_reads = λ x k. ground (arith, t.tail_reads x k);
        })
    | inr e ↦ rw e (record {
      tail_beyond = ground arith;
      tail_above = λ c k q. (ground arith, above.1, rw q above.2, above.3);
      tail_reads = λ x k. refl;
    })
  ]

  -- What stands after the rule's range in the end.
  pub record Merged (last : ℕ) (access a : A) (after m : List (Range A)) : Type ℓ where
    pub merged_beyond : Beyond last m
    pub merged_above : (c : Range A) → c.start ≤ last → c.access ≡ access → Above max_addr c m
    pub merged_reads : (x : ℕ) → last < x → x ≤ max_addr → at access x m ≡ at a x after

  Above-weaken :
      (r c : Range A) (rs : List (Range A))
      → c.start ≤ r.start
      → c.access ≡ r.access
      → Above max_addr r rs
      → Above max_addr c rs
  Above-weaken r c [] h e above = tt
  Above-weaken r c (s ∷ ss) h e above = (omega arith, above.1, rw e above.2, above.3)

  Above-Beyond :
      (n : ℕ) (r : Range A) (rs : List (Range A)) → n ≤ r.start → Above max_addr r rs → Beyond n rs
  Above-Beyond n r [] h above = tt
  Above-Beyond n r (s ∷ ss) h above = omega arith

  -- Where the rule ends the address space there is nothing to resume.
  resume_none :
      (last : ℕ) (access a : A)
      → last ≤ max_addr
      → (rest : List (Range A)) × (resume max_addr dec last access a [] ≡ some rest)
        × Merged last access a [] (merge max_addr dec access rest)
  unfolding resume merge
  resume_none last access a h = elim (Bool-cases (last == max_addr)) [
    | inl e ↦ (
      [],
      rw e,
      record {
        merged_beyond = tt;
        merged_above = λ c _ _. tt;
        merged_reads = λ x k l. absurd (ground arith);
      },
    )
    | inr e ↦ elim (dec a access) [
      | yes p ↦ (
        [],
        rw (e, if_pos _ p),
        record { merged_beyond = tt; merged_above = λ c _ _. tt; merged_reads = λ x k l. sym p },
      )
      | no p ↦ (
        record { start = plus_one max_addr last; access = a } ∷ [],
        rw (e, if_neg _ p),
        rw (if_neg _ p, plus_one-lt max_addr last (ground arith))
            (record {
              merged_beyond = omega arith;
              merged_above = λ c k q. (omega arith, ground arith, (λ z. p (sym z ∙ q)), tt);
              merged_reads = λ x k l. ground arith;
            }),
      )
    ]
  ]

  -- The next range follows `last` at once: it stays, unless it says the same as the rule.
  merge_adjacent :
      (last : ℕ) (access a : A) (r : Range A) (rs : List (Range A))
      → r.start ≡ last + 1
      → r.start ≤ max_addr
      → Above max_addr r rs
      → Merged last access a (r ∷ rs) (merge max_addr dec access (r ∷ rs))
  unfolding merge
  merge_adjacent last access a r rs h k above = elim (dec r.access access) [
    | yes p ↦ rw (if_pos _ p) (record {
      merged_beyond = Above-Beyond last r rs (omega arith) above;
      merged_above = λ c l q. Above-weaken r c rs (omega arith) (q ∙ sym p) above;
      merged_reads = λ x l _. rw (← p) (ground arith);
    })
    | no p ↦ rw (if_neg _ p) (record {
      merged_beyond = omega arith;
      merged_above = λ c l q. (omega arith, k, (λ z. p (sym z ∙ q)), above);
      merged_reads = λ x l _. ground arith;
    })
  ]

  -- There is a gap between `last` and the next range: the old access is resumed in it.
  merge_gap :
      (last : ℕ) (access a : A) (r : Range A) (rs : List (Range A))
      → last + 1 < r.start
      → r.start ≤ max_addr
      → a ≢ r.access
      → Above max_addr r rs
      → Merged last access a (r ∷ rs) (
          merge max_addr dec access (
            if not (same max_addr dec a access)
            then record { start = plus_one max_addr last; access = a } ∷ r ∷ rs
            else r ∷ rs))
  unfolding merge
  merge_gap last access a r rs h k differ above = elim (dec a access) [
    | yes p ↦
        rw (if_pos _ p, if_neg _ (λ z. differ (p ∙ sym z)))
          (record {
            merged_beyond = omega arith;
            merged_above = λ c l q. (omega arith, k, (λ z. differ (p ∙ sym q ∙ z)), above);
            merged_reads = λ x l _. ground arith;
          })
    | no p ↦
        rw (if_neg _ p, if_neg _ p, plus_one-lt max_addr last (omega arith))
          (record {
            merged_beyond = omega arith;
            merged_above =
                λ c l q. (omega arith, omega arith, (λ z. p (sym z ∙ q)), (h, k, differ, above));
            merged_reads = λ x l _. ground arith;
          })
  ]

  resume-some :
      (last : ℕ) (access a : A) (r : Range A) (rs : List (Range A))
      → last < r.start
      → r.start ≤ max_addr
      → a ≢ r.access
      → Above max_addr r rs
      → (rest : List (Range A)) × (resume max_addr dec last access a (r ∷ rs) ≡ some rest)
        × Merged last access a (r ∷ rs) (merge max_addr dec access rest)
  unfolding resume
  resume-some last access a r rs h k differ above =
      let step = minus_one-pos max_addr r.start (omega arith) k in
      elim (Bool-cases (r.start - 1 == last)) [
        | inl e ↦ (r ∷ rs, rw (step, e), merge_adjacent last access a r rs (ground arith) k above)
        | inr e ↦ (
          _,
          rw (step, e, lt→ltb last (r.start - 1) (ground arith)),
          merge_gap last access a r rs (ground arith) k differ above,
        )
      ]

  pub resume_lem :
      (last : ℕ) (access a : A) (after : List (Range A))
      → last ≤ max_addr
      → Beyond last after
      → ((c : Range A) → c.start ≤ last → c.access ≡ a → Above max_addr c after)
      → (rest : List (Range A)) × (resume max_addr dec last access a after ≡ some rest)
        × Merged last access a after (merge max_addr dec access rest)
  resume_lem last access a [] h b above = resume_none last access a h
  resume_lem last access a (r ∷ rs) h b above =
      let f = above (record { start = last; access = a }) (omega arith) refl in
      resume-some last access a r rs b f.1 f.2 f.3

-- ===== src/Filter/Rule.antt =====
-- What `AddRule` does to the access of every address.
use resource_cache.Common.{
  ℕ, ◌≤◌, ◌≡◌, refl, sym, ap, ◌∙◌, inl, inr, Bool, true, false, ◌&&◌, ◌||◌, Option, some, List, [],
  ◌∷◌, leb, ltb, ◌==◌, if◌then◌else◌, arith, Bool-cases, leb→le, le→leb,
}
use resource_cache.Filter.{Range, Cursor, zip, access_of, merge, add_at, add_rule}
use resource_cache.Filter.Ranges.{
  at, Beyond, Back, IsValid, Seeks, seek-Seeks, zip-IsValid, at-Beyond, at-zip, access_of-at,
}
use resource_cache.Filter.Tail.{Tail, Merged, tail_from-Tail, resume_lem}
use resource_cache.Filter.Place.{Placed, place-Places}

first_le_last : (a b : ℕ) → a ≤ b → (ltb a b || a == b) ≡ true
first_le_last a b h = ground arith

some_if {ℓ} :
    {A : Type ℓ} (b : Bool) (x y : A) → some (if b then x else y) ≡ (if b then some x else some y)
some_if true x y = refl
some_if false x y = refl

module _ {ℓ} {A : Type ℓ} (max_addr : ℕ) (dec : Discrete A) where
  Beyond-le : (m n : ℕ) (rs : List (Range A)) → m ≤ n → Beyond n rs → Beyond m rs
  Beyond-le m n [] h b = tt
  Beyond-le m n (r ∷ rs) h b = omega arith

  -- What every address reads once the ranges around the rule are put together.
  reads_lem :
      (d : A) (first last : ℕ) (access a : A) (before : List (Range A)) (cur : Range A)
      (rest after back : List (Range A)) (c : Range A) (m : List (Range A)) (x : ℕ)
      → first ≤ last
      → x ≤ max_addr
      → Back max_addr cur before
      → cur.start ≤ first
      → Tail max_addr dec last cur rest a after
      → Merged max_addr dec last access a after m
      → Placed max_addr dec first access before cur rest back c
      → at d x (zip back (c ∷ m))
        ≡ (if leb first x && leb x last then access else at d x (zip before (cur ∷ rest)))
  reads_lem d first last access a before cur rest after back c m x h k bk low t mm p =
      elim (Bool-cases (leb first x)) [
        | inr e ↦ rw e (
            p.placed_reads d x m (ground arith)
              (Beyond-le x last m (ground arith) mm.merged_beyond))
        | inl e ↦
            let here = at-zip max_addr d x back c m (ground (arith, p.placed_low)) p.placed_back in
            elim (Bool-cases (leb x last)) [
              | inl f ↦
                  rw (e, f)
                    (here
                      ∙ at-Beyond c.access last x m (leb→le _ _ f) mm.merged_beyond
                      ∙ p.placed_access)
              | inr f ↦
                  rw (e, f)
                    (here
                      ∙ ap (λ z. at z x m) p.placed_access
                      ∙ mm.merged_reads x (ground arith) k
                      ∙ sym (t.tail_reads x (ground arith))
                      ∙ sym (at-zip max_addr d x before cur rest (ground arith) bk))
            ]
      ]

  -- The list that `AddRule` leaves.
  abbrev Adds : ℕ → ℕ → A → List (Range A) → Option (List (Range A)) → Type ℓ
  Adds first last access l result =
      (l' : List (Range A)) × (result ≡ some l')
      × IsValid max_addr l'
      × ((d : A) (x : ℕ)
          → x ≤ max_addr
          → at d x l' ≡ (if leb first x && leb x last then access else at d x l))

  add_at-Adds :
      (first last : ℕ) (access : A) (l : List (Range A)) (i : Cursor A)
      → first ≤ last
      → last ≤ max_addr
      → Seeks max_addr first l i
      → Adds first last access l (add_at max_addr dec first last access i)
  unfolding add_at
  add_at-Adds first last access l i h k s =
      let t = tail_from-Tail max_addr dec last i.cur i.rest (omega (arith, s.reached)) s.above in
      let (rest, e, m) = resume_lem max_addr dec last access _ _ k t.tail_beyond t.tail_above in
      let (back, c, pb, p) =
        place-Places max_addr dec first access i.before i.cur i.rest s.back s.reached s.beyond in
      (
        zip back (c ∷ merge max_addr dec access rest),
        rw (le→leb i.cur.start last (omega (arith, s.reached)), e)
            (ap some (pb (merge max_addr dec access rest))),
        zip-IsValid max_addr back c _ (omega (arith, p.placed_low)) p.placed_back
            (m.merged_above c (omega (arith, p.placed_low)) p.placed_access),
        λ d x b.
            reads_lem d first last access _ i.before i.cur i.rest _ back c _ x h b s.back s.reached
              t m p
            ∙ ap (λ z. if leb first x && leb x last then access else at d x z) s.whole,
      )

  add_rule-Adds :
      (first last : ℕ) (access : A) (l : List (Range A))
      → first ≤ last
      → last ≤ max_addr
      → IsValid max_addr l
      → Adds first last access l (add_rule max_addr dec first last access l)
  unfolding add_rule
  add_rule-Adds first last access [] h k v = absurd v.0
  add_rule-Adds first last access (r ∷ rs) h k v = rw (first_le_last first last h) (
      add_at-Adds first last access (r ∷ rs) _ h k
        (seek-Seeks max_addr first [] r rs (omega arith) (v.0, tt) v.1))

  -- From a well-formed set, a rule within the address space passes every assertion and leaves a well-formed set, in which an address from `first` to `last` has the rule's access and any other address the access that it had.
  pub access_of-add_rule :
      (first last x : ℕ) (access : A) (l : List (Range A))
      → first ≤ last
      → last ≤ max_addr
      → x ≤ max_addr
      → IsValid max_addr l
      → (l' : List (Range A)) × (add_rule max_addr dec first last access l ≡ some l')
        × IsValid max_addr l'
        × (access_of x l' ≡ (if leb first x && leb x last then some access else access_of x l))
  access_of-add_rule first last x access l h k b v =
      let (l', e, v', reads) = add_rule-Adds first last access l h k v in
      (
        l',
        e,
        v',
        access_of-at max_addr access x l' v'
            ∙ ap some (reads access x b)
            ∙ some_if (leb first x && leb x last) access (at access x l)
            ∙ ap (λ z. if leb first x && leb x last then some access else z)
                (sym (access_of-at max_addr access x l v)),
      )

-- ===== src/Bencode/Ends.antt =====
-- pub/bencode.cpp: every call of `Bdecode` ends, because it leaves less of the text than it was given.
use resource_cache.Common.{
  ℕ, zero, suc, ◌+◌, ◌*◌, ◌<◌, ◌≢◌, Bool, true, false, Option, none, some, List, [], ◌∷◌, length,
  ◌==◌, if◌then◌else◌, arith,
}
use resource_cache.Bencode.Entry.{
  ℤ, pos, negsuc, BencodeEntry, Items, text, undefined, no_items, insert,
}
use resource_cache.Bencode.Lexical.{Lexical}
use resource_cache.Common.Results.{Result, ok, failed, out_of_fuel, ◌>>=◌, of_option}
use resource_cache.Bencode.Decode.{
  find, split, starts, tail, bdecode_string, string_of, read_number, bdecode_integer, bdecode_text,
  bdecode_number, bdecode_entry, bdecode_entries, bdecode_items, bdecode,
}

-- The call ended, and what it left of the text is shorter than `n`.
abbrev pub Shortens {ℓ} : {A : Type ℓ} → ℕ → Result (A × List ℕ) → Type 0
Shortens n (ok (a, rest)) = length rest < n
Shortens n failed = Unit
Shortens n out_of_fuel = ⊥

Shortens-bind {ℓ κ} :
    {A : Type ℓ} {B : Type κ} (n m : ℕ) (r : Result (A × List ℕ))
    (f : A × List ℕ → Result (B × List ℕ))
    → Shortens m r
    → ((a : A) (rest : List ℕ) → length rest < m → Shortens n (f (a, rest)))
    → Shortens n (r >>= f)
Shortens-bind n m (ok (a, rest)) f h k = k a rest h
Shortens-bind n m failed f h k = tt
Shortens-bind n m out_of_fuel f h k = elim h [ ]

Shortens-trans {ℓ} :
    {A : Type ℓ} (n m : ℕ) (r : Result (A × List ℕ)) → m < n → Shortens m r → Shortens n r
Shortens-trans n m (ok (a, rest)) l h = omega arith
Shortens-trans n m failed l h = tt
Shortens-trans n m out_of_fuel l h = h

Shortens-if {ℓ} :
    {A : Type ℓ} (n : ℕ) (b : Bool) (x y : Result (A × List ℕ))
    → Shortens n x
    → Shortens n y
    → Shortens n (if b then x else y)
Shortens-if n true x y h k = h
Shortens-if n false x y h k = k

Shortens-some :
    (n x : ℕ) (o : Option (List ℕ × List ℕ))
    → Shortens n (of_option o)
    → Shortens (suc n) (of_option (elim o [ none ↦ none | some (a, b) ↦ some (x ∷ a, b) ]))
Shortens-some n x none h = tt
Shortens-some n x (some (a, b)) h = omega arith

of_option_if :
    (b : Bool) (ts : List ℕ) (o : Option (List ℕ × List ℕ)) {n : ℕ}
    → length ts < n
    → Shortens n (of_option o)
    → Shortens n (of_option (if b then some ([], ts) else o))
of_option_if true ts o h k = h
of_option_if false ts o h k = k

find-Shortens : (c : ℕ) (ts : List ℕ) → Shortens (length ts) (of_option (find c ts))
unfolding find
find-Shortens c [] = tt
find-Shortens c (x ∷ ts) =
    of_option_if (x == c) ts _ (omega arith)
      (Shortens-some (length ts) x (find c ts) (find-Shortens c ts))

split-Shortens : (n : ℕ) (ts : List ℕ) → Shortens (suc (length ts)) (of_option (split n ts))
unfolding split
split-Shortens zero ts = omega arith
split-Shortens (suc n) [] = tt
split-Shortens (suc n) (x ∷ ts) =
    Shortens-some (suc (length ts)) x (split n ts) (split-Shortens n ts)

bdecode_string-Shortens : (n : ℤ) (ts : List ℕ) → Shortens (suc (length ts)) (bdecode_string n ts)
unfolding bdecode_string
bdecode_string-Shortens (pos n) ts = split-Shortens n ts
bdecode_string-Shortens (negsuc n) ts = tt

-- A loop that reads its `e`.
tail-Shortens :
    {A : Type 0} (ts : List ℕ) (a : A) (more : Result (A × List ℕ))
    → Shortens (length ts) more
    → Shortens (length ts) (if starts b'e' ts then ok (a, tail ts) else more)
tail-Shortens [] a more h = h
tail-Shortens (t ∷ ts) a more h = Shortens-if (suc (length ts)) (t == b'e') _ more (omega arith) h

string_of-Shortens :
    {B : Type 0} (n : ℕ) (k : BencodeEntry) (f : List ℕ → Result (B × List ℕ))
    → ((key : List ℕ) → Shortens n (f key))
    → Shortens n (string_of k >>= f)
unfolding string_of
string_of-Shortens n (text s) f h = h s
string_of-Shortens n undefined f h = h []
string_of-Shortens n _ f h = tt

module _ (lex : Lexical) where
  read_number-Shortens :
      (m : ℕ) (ns rest : List ℕ) → length rest < m → Shortens m (read_number lex (ns, rest))
  read_number-Shortens m [] rest h = tt
  read_number-Shortens m (c ∷ cs) rest h =
      elim (lex.read (c ∷ cs)) as (λ o. Shortens m (of_option o >>= λ n. ok (n, rest))) [
        | none ↦ tt
        | some n ↦ h
      ]

  bdecode_integer-Shortens : (c : ℕ) (ts : List ℕ) → Shortens (length ts) (bdecode_integer lex c ts)
  unfolding bdecode_integer
  bdecode_integer-Shortens c ts =
      Shortens-bind _ _ (of_option (find c ts)) _ (find-Shortens c ts)
        (read_number-Shortens (length ts))

  bdecode_text-Shortens : (ts : List ℕ) → Shortens (length ts) (bdecode_text lex ts)
  unfolding bdecode_text
  bdecode_text-Shortens ts =
      Shortens-bind _ _ (bdecode_integer lex b':' ts) _ (bdecode_integer-Shortens b':' ts)
        λ n rest h.
          Shortens-bind _ _ (bdecode_string n rest) _ (bdecode_string-Shortens n rest)
            λ s rest' h'. omega arith

  bdecode_number-Shortens : (ts : List ℕ) → Shortens (length ts) (bdecode_number lex ts)
  unfolding bdecode_number
  bdecode_number-Shortens ts =
      Shortens-bind _ _ (bdecode_integer lex b'e' ts) _ (bdecode_integer-Shortens b'e' ts)
        λ n rest h. h

  mutual
    unfolding bdecode_entry

    bdecode_entry-Shortens :
        (f : ℕ) (ts : List ℕ) → 2 * length ts < f → Shortens (length ts) (bdecode_entry lex f ts)
    bdecode_entry-Shortens zero ts h = absurd (omega arith)
    bdecode_entry-Shortens (suc f) [] h = tt
    bdecode_entry-Shortens (suc f) (c ∷ ts) h =
        Shortens-if _ (c == b'i') _ _
          (Shortens-trans _ _ _ (omega arith) (bdecode_number-Shortens ts))
          (Shortens-if _ (c == b'l') _ _
            (Shortens-bind _ _ _ _ (bdecode_entries-Shortens f ts (omega arith))
              λ _ rest k. omega arith)
            (Shortens-if _ (c == b'd') _ _
              (Shortens-bind _ _ _ _ (bdecode_items-Shortens f ts no_items (omega arith))
                λ _ rest k. omega arith)
              (bdecode_text-Shortens (c ∷ ts))))

    bdecode_entries-Shortens :
        (f : ℕ) (ts : List ℕ)
        → 2 * length ts + 1 < f
        → Shortens (length ts) (bdecode_entries lex f ts)
    bdecode_entries-Shortens zero ts h = absurd (omega arith)
    bdecode_entries-Shortens (suc f) ts h = tail-Shortens ts _ _ (
        Shortens-bind _ _ _ _ (bdecode_entry-Shortens f ts (omega arith)) λ e rest k.
          Shortens-bind _ _ _ _ (bdecode_entries-Shortens f rest (omega arith))
            λ _ rest' k'. omega arith)

    bdecode_items-Shortens :
        (f : ℕ) (ts : List ℕ) (is : Items)
        → 2 * length ts + 1 < f
        → Shortens (length ts) (bdecode_items lex f ts is)
    bdecode_items-Shortens zero ts is h = absurd (omega arith)
    bdecode_items-Shortens (suc f) ts is h = tail-Shortens ts _ _ (
        Shortens-bind _ _ _ _ (bdecode_entry-Shortens f ts (omega arith)) λ k rest l.
          string_of-Shortens _ k _ λ key.
            Shortens-bind _ _ _ _ (bdecode_entry-Shortens f rest (omega arith)) λ v rest' l'.
              Shortens-trans _ _ _ (omega arith)
                (bdecode_items-Shortens f rest' (insert key v is) (omega arith)))

  bdecode-cases :
      {A B : Type 0} (n : ℕ) (r : Result (A × List ℕ)) (f : A × List ℕ → B)
      → Shortens n r
      → (r >>= λ p. ok (f p)) ≢ out_of_fuel
  bdecode-cases n (ok p) f h = cc
  bdecode-cases n failed f h = cc
  bdecode-cases n out_of_fuel f h = elim h [ ]

  -- The reading of a text ends, whatever the text is.
  pub bdecode-ends : (ts : List ℕ) → bdecode lex ts ≢ out_of_fuel
  unfolding bdecode
  bdecode-ends [] = cc
  bdecode-ends (c ∷ ts) =
      bdecode-cases _ _ (λ (e, rest). e) (bdecode_entry-Shortens _ (c ∷ ts) (omega arith))

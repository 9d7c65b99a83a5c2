-- ===== src/DomainSet/Ends.antt =====
-- The walk of domainSet.Match over a name that does not end in a dot: it never comes to an empty text.
use dnsredir.Base.{
  ℕ, zero, suc, ◌+◌, ◌<◌, Bool, true, false, Option, none, some, [], ◌∷◌, ◌++◌, length, drop, Str,
  index_byte, ret, ◌≡◌, ◌≢◌, refl, sym, ap, ◌∙◌, arith, ◌==◌, if◌then◌else◌, length-append,
  Bool-cases, inl, inr, Option-cases,
}
use dnsredir.Externals.{NameLibs}
use dnsredir.DomainSet.{next_child, DomainSet, match_loop, match}
use dnsredir.DomainSet.Match.{hit_of, loop_round}

-- What is behind a dot of a text with another byte at its end ends in that byte.
drop-index_byte :
    (s : Str) (c i : ℕ)
    → c ≢ b'.'
    → index_byte b'.' (s ++ c ∷ []) ≡ some i
    → (t : Str) × (drop (suc i) (s ++ c ∷ []) ≡ t ++ c ∷ []) × (length t < length s)
drop-index_byte [] c i n e = absurd (ground arith)
drop-index_byte (d ∷ s) c i n e = elim (Bool-cases (d == b'.')) [
  | inl y ↦ let z : 0 ≡ i = ground arith in rw (← z) (s, refl, omega arith)
  | inr m ↦ elim (Option-cases (index_byte b'.' (s ++ c ∷ []))) [
    | inl o ↦ absurd (ground arith)
    | inr (j, o) ↦
        let (t, p, l) = drop-index_byte s c j n o in
        let z : suc j ≡ i = ground arith in rw (← z) (t, p, omega arith)
  ]
]

next_child-ends :
    (s rest : Str) (c : ℕ)
    → c ≢ b'.'
    → next_child (s ++ c ∷ []) ≡ some rest
    → (t : Str) × (rest ≡ t ++ c ∷ []) × (length t < length s)
unfolding next_child
next_child-ends s rest c n e = by_index (index_byte b'.' (s ++ c ∷ [])) refl e
  where
    by_index :
        (o : Option ℕ)
        → index_byte b'.' (s ++ c ∷ []) ≡ o
        → (elim o [
          | none ↦ none
          | some i ↦ elim i [ zero ↦ none | suc j ↦ some (drop (suc j + 1) (s ++ c ∷ [])) ]
        ])
          ≡ some rest
        → (t : Str) × (rest ≡ t ++ c ∷ []) × (length t < length s)
    by_index none p q = absurd (ground arith)
    by_index (some zero) p q = absurd (ground arith)
    by_index (some (suc j)) p q =
        let (t, d, l) = drop-index_byte s c (suc j) n p in
        let k : suc j + 1 ≡ suc (suc j) = omega arith in
        let r : drop (suc j + 1) (s ++ c ∷ []) ≡ rest = ground arith in
        (t, sym r ∙ ap (λ i. drop i (s ++ c ∷ [])) k ∙ d, l)

module _ (libs : NameLibs) (d : DomainSet) (c : ℕ) (n : c ≢ b'.') where
  loop-ends :
      (fuel : ℕ) (s : Str)
      → length s < fuel
      → (b : Bool) × (match_loop fuel libs d (s ++ c ∷ []) ≡ ret b)
  loop-ends zero s lt = absurd (omega arith)
  loop-ends (suc fuel) s lt = rw (loop_round libs d fuel (s ++ c ∷ []) (not_empty s)) (
      by_hit (λ t l. loop-ends fuel t l) (hit_of libs d (s ++ c ∷ [])) (next_child (s ++ c ∷ []))
        refl)
    where
      not_empty : (s : Str) → s ++ c ∷ [] ≢ []
      not_empty [] e = ground arith
      not_empty (x ∷ s) e = ground arith

      by_hit :
          ((t : Str)
            → length t < fuel
            → (b : Bool) × (match_loop fuel libs d (t ++ c ∷ []) ≡ ret b))
          → (h : Bool) (o : Option Str) → next_child (s ++ c ∷ []) ≡ o
          → (b : Bool) × ((if h
                then ret true
                else elim o [ none ↦ ret false | some t ↦ match_loop fuel libs d t ])
              ≡ ret b)
      by_hit ih true o p = (true, refl)
      by_hit ih false none p = (false, refl)
      by_hit ih false (some rest) p =
          let (t, e, l) = next_child-ends s rest c n p in
          let (b, q) = ih t (omega arith) in (b, rw e q)

  -- Match of a name that ends in another byte than a dot gives an answer.
  pub match-ends : (s : Str) → (b : Bool) × (match libs d (s ++ c ∷ []) ≡ ret b)
  unfolding match
  match-ends s =
      let l = length-append s (c ∷ []) in
      let p : (length (s ++ c ∷ []) == 0) ≡ false = ground (arith, l) in
      rw p (loop-ends (suc (length (s ++ c ∷ []))) s (omega (arith, l)))

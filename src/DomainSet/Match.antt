-- ===== src/DomainSet/Match.antt =====
-- The walk of domainSet.Match over the suffixes of a name, against a search of the whole set.
use dnsredir.Base.{
  ◌==◌, append_assoc, ◌≤◌, ℕ, zero, suc, ◌+◌, ◌<◌, Bool, true, false, none, some, List, [], ◌∷◌,
  ◌++◌, length, drop, any, Str, Lacks, index_byte-Lacks, index_byte-append, ret, panic, ◌>>=◌, ◌≡◌,
  ◌≢◌, refl, ap, arith, if◌then◌else◌, length-append,
}
use dnsredir.Domain.Labels.{dotted, tails}
use dnsredir.Externals.{NameLibs, AreLabels}
use dnsredir.DomainSet.{next_child, DomainSet, bucket, domain_to_index, hit, match_loop, match}
use dnsredir.DomainSet.Laws.{bucket_of, domain_to_index_total}

drop-length-suc : (s t : Str) (b : ℕ) → drop (suc (length s)) (s ++ b ∷ t) ≡ t
drop-length-suc [] t b = refl
drop-length-suc (c ∷ s) t b = drop-length-suc s t b

append-ne-nil : (s t : Str) → 0 < length s → s ++ t ≢ []
append-ne-nil [] t h e = absurd (omega arith)
append-ne-nil (c ∷ s) t h e = ground arith

next_child-last : (l : Str) → Lacks b'.' l → next_child l ≡ none
unfolding next_child
next_child-last l h = rw (index_byte-Lacks b'.' l h, next_child)

next_child-step : (l t : Str) → 0 < length l → Lacks b'.' l → next_child (l ++ b'.' ∷ t) ≡ some t
unfolding next_child
next_child-step [] t p h = absurd (omega arith)
next_child-step (c ∷ l) t p h =
    rw (index_byte-append b'.' (c ∷ l) t h, next_child)
      (let e : suc (length l) + 1 ≡ suc (suc (length l)) = omega arith in
        rw e (ap some (drop-length-suc l t b'.')))

pub dotted-ne-nil : (l : Str) (ls : List Str) → AreLabels (l ∷ ls) → dotted (l ∷ ls) ≢ []
unfolding dotted
dotted-ne-nil l [] h e = absurd (omega (arith, ap length e, h.0.0))
dotted-ne-nil l (m ∷ ls) h e = append-ne-nil l _ h.0.0 e

module _ (libs : NameLibs) (d : DomainSet) where
  -- What a round finds for a name.
  unfoldable pub hit_of : Str → Bool
  hit_of n = hit libs (bucket_of d n) n

  pub hit_of-eq : (n : Str) (k : ℕ) → domain_to_index n ≡ ret k → hit_of n ≡ hit libs (bucket k d) n
  unfolding hit_of bucket_of
  hit_of-eq n k e = rw (e, bucket_of)

  -- A round at a name that is not empty.
  pub loop_round :
      (fuel : ℕ) (n : Str)
      → n ≢ []
      → match_loop (suc fuel) libs d n ≡ (
          if hit_of n
          then ret true
          else elim (next_child n) [ none ↦ ret false | some t ↦ match_loop fuel libs d t ])
  loop_round fuel n h =
      let (k, e) = domain_to_index_total n h in go k e (hit libs (bucket k d) n) refl
    where
      go :
          (k : ℕ)
          → domain_to_index n ≡ ret k
          → (b : Bool) → hit libs (bucket k d) n ≡ b
          → match_loop (suc fuel) libs d n ≡ (
              if hit_of n
              then ret true
              else elim (next_child n) [ none ↦ ret false | some t ↦ match_loop fuel libs d t ])
      go k e true y = rw (hit_of-eq n k e, y) (unfold match_loop in rw (e, ◌>>=◌) (rw (y, ◌>>=◌)))
      go k e false y = rw (hit_of-eq n k e, y) (unfold match_loop in rw (e, ◌>>=◌) (rw (y, ◌>>=◌)))

  -- The loop over a name given by its labels: it stops at the first suffix with a hit.
  loop_labels :
      (fuel : ℕ) (ls : List Str)
      → ls ≢ []
      → AreLabels ls
      → length ls < fuel
      → match_loop fuel libs d (dotted ls) ≡ ret (any (λ t. hit_of (dotted t)) (tails ls))
  unfolding dotted
  loop_labels fuel [] ne h lt = absurd (ne refl)
  loop_labels zero (l ∷ ls) ne h lt = absurd (omega arith)
  loop_labels (suc fuel) (l ∷ []) ne h lt =
      rw
        (
          loop_round fuel l (λ e. absurd (omega (arith, ap length e, h.0.0))),
          next_child-last l h.0.1,
        )
        (ground arith)
  loop_labels (suc fuel) (l ∷ m ∷ ls) ne (h, hs) lt =
      rw
        (
          loop_round fuel (l ++ b'.' ∷ dotted (m ∷ ls)) (append-ne-nil l _ h.0),
          next_child-step l (dotted (m ∷ ls)) h.0 h.1,
        )
        (rw (loop_labels fuel (m ∷ ls) (λ e. ground arith) hs (omega arith)) (ground arith))

  length-dotted : (ls : List Str) → AreLabels ls → length ls ≤ length (dotted ls)
  unfolding dotted
  length-dotted [] h = omega arith
  length-dotted (l ∷ []) h = omega (arith, h.0.0)
  length-dotted (l ∷ m ∷ ls) (h, hs) =
      omega (arith, h.0, length-dotted (m ∷ ls) hs, length-append l (b'.' ∷ dotted (m ∷ ls)))

  pub match-hits :
      (ls : List Str)
      → ls ≢ []
      → AreLabels ls
      → match libs d (dotted ls) ≡ ret (any (λ t. hit_of (dotted t)) (tails ls))
  unfolding match
  match-hits [] ne h = absurd (ne refl)
  match-hits (l ∷ ls) ne h =
      rw
        (let p : (length (dotted (l ∷ ls)) == 0) ≡ false =
            ground (arith, length-dotted (l ∷ ls) h) in
          p)
        (loop_labels (suc (length (dotted (l ∷ ls)))) (l ∷ ls) ne h
          (omega (arith, length-dotted (l ∷ ls) h)))

  -- The root's name has one round.
  pub match-root_name : match libs d (b'.' ∷ []) ≡ ret (hit_of (b'.' ∷ []))
  unfolding match
  match-root_name = rw (loop_round (suc zero) (b'.' ∷ []) (λ e. ground arith)) (ground arith)

  -- A name that ends in a dot which separates no label: if no suffix is found, the loop comes to
  -- the empty text.
  loop_trailing_dot :
      (fuel : ℕ) (ls : List Str)
      → ls ≢ []
      → AreLabels ls
      → length ls < fuel
      → any (λ t. hit_of (dotted t ++ b'.' ∷ [])) (tails ls) ≡ false
      → match_loop fuel libs d (dotted ls ++ b'.' ∷ []) ≡ panic
  unfolding dotted
  loop_trailing_dot fuel [] ne h lt misses = absurd (ne refl)
  loop_trailing_dot zero (l ∷ ls) ne h lt misses = absurd (omega arith)
  loop_trailing_dot (suc zero) (l ∷ ls) ne h lt misses = absurd (omega arith)
  loop_trailing_dot (suc (suc fuel)) (l ∷ []) ne h lt misses =
      let miss : hit_of (l ++ b'.' ∷ []) ≡ false = ground arith in
      rw
        (
          loop_round (suc fuel) (l ++ b'.' ∷ []) (append-ne-nil l _ h.0.0),
          next_child-step l [] h.0.0 h.0.1,
          miss,
        )
        (unfold match_loop domain_to_index in refl)
  loop_trailing_dot (suc (suc fuel)) (l ∷ m ∷ ls) ne (h, hs) lt misses =
      let rest = dotted (m ∷ ls) ++ b'.' ∷ [] in
      let miss : hit_of (l ++ b'.' ∷ rest) ≡ false =
        rw (← append_assoc l (b'.' ∷ dotted (m ∷ ls)) (b'.' ∷ [])) (ground arith) in
      rw (append_assoc l (b'.' ∷ dotted (m ∷ ls)) (b'.' ∷ [])) (
        rw
          (
            loop_round (suc fuel) (l ++ b'.' ∷ rest) (append-ne-nil l _ h.0),
            next_child-step l rest h.0 h.1,
            miss,
          )
          (loop_trailing_dot (suc fuel) (m ∷ ls) (λ e. ground arith) hs (omega arith)
            (ground arith)))

  -- Match panics on a name with a dot at its end, unless a name in the set stops it before.
  pub match_trailing_dot :
      (ls : List Str)
      → ls ≢ []
      → AreLabels ls
      → any (λ t. hit_of (dotted t ++ b'.' ∷ [])) (tails ls) ≡ false
      → match libs d (dotted ls ++ b'.' ∷ []) ≡ panic
  unfolding match
  match_trailing_dot ls ne h misses =
      let e = length-append (dotted ls) (b'.' ∷ []) in
      rw (let p : (length (dotted ls ++ b'.' ∷ []) == 0) ≡ false = ground (arith, e) in p) (
        loop_trailing_dot (suc (length (dotted ls ++ b'.' ∷ []))) ls ne h
          (omega (arith, length-dotted ls h, e)) misses)

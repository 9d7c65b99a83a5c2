-- ===== src/DomainSet/Search.antt =====
-- domainSet.Match is a search of the set for the name or a name above it, whatever the buckets.
use dnsredir.Base.{
  ℕ, Bool, true, inl, inr, List, [], ◌∷◌, any, Str, str_eq, str_eq_sound, str_eq_refl, ret, ◌≡◌,
  ◌≢◌, refl, sym, ap, ◌∙◌, arith, Bool-cases,
}
use dnsredir.Domain.Labels.{dotted, tails}
use dnsredir.Domain.Valid.{IsDomain}
use dnsredir.Externals.{NameLibs, NameLaws, AreLabels, AreFolded}
use dnsredir.StringSet.{StringSet, contains}
use dnsredir.DomainSet.{DomainSet, bucket, hit, match}
use dnsredir.DomainSet.Laws.{has, has-eq, WellBucketed, domain_to_index_total}
use dnsredir.DomainSet.Match.{hit_of, hit_of-eq, match-hits, dotted-ne-nil}

-- Every name in the set is a domain name in stringToDomain's spelling.
abbrev pub AreDomains : DomainSet → Type 0
AreDomains d = (k : ℕ) (n : Str) → contains (bucket k d) n ≡ true → IsDomain n

-- The name or a name above it is in the set.
unfoldable pub covers : DomainSet → List Str → Bool
covers d ls = any (λ t. has d (dotted t)) (tails ls)

any-witness :
    (q : Str → Bool) (s : StringSet)
    → any q s ≡ true
    → (p : Str) × (contains s p ≡ true) × (q p ≡ true)
any-witness q [] h = absurd (ground arith)
any-witness q (x ∷ s) h = elim (Bool-cases (q x)) [
  | inl y ↦ (x, ground (arith, str_eq_refl x), y)
  | inr n ↦ let (p, c, e) = any-witness q s (ground arith) in (p, ground arith, e)
]

any_mono {ℓ} :
    {A : Type ℓ} (f g : A → Bool) (xs : List A)
    → ((a : A) → f a ≡ true → g a ≡ true)
    → any f xs ≡ true
    → any g xs ≡ true
any_mono f g [] h e = e
any_mono f g (x ∷ xs) h e = elim (Bool-cases (f x)) [
  | inl y ↦ ground (arith, h x y)
  | inr n ↦ ground (arith, any_mono f g xs h (ground arith))
]

module _ (libs : NameLibs) (d : DomainSet) (laws : NameLaws libs) (w : WellBucketed d)
    (v : AreDomains d) where
  has_of_bucket : (k : ℕ) (p : Str) → contains (bucket k d) p ≡ true → has d p ≡ true
  has_of_bucket k p h = has-eq d p k (w k p h) ∙ h

  hit_sound :
      (ls : List Str)
      → ls ≢ []
      → AreLabels ls
      → AreFolded ls
      → hit_of libs d (dotted ls) ≡ true
      → covers d ls ≡ true
  unfolding covers
  hit_sound [] ne h f y = absurd (ne refl)
  hit_sound (l ∷ ls) ne h f y =
      let n = dotted (l ∷ ls) in
      let (k, i) = domain_to_index_total n (dotted-ne-nil l ls h) in
      let y' : hit libs (bucket k d) n ≡ true = sym (hit_of-eq libs d n k i) ∙ y in
      elim (Bool-cases (contains (bucket k d) n)) [
        | inl c ↦ ground (arith, has_of_bucket k n c)
        | inr other ↦
            let (p, c, m) =
              any-witness (λ p. libs.name_matches p n) (bucket k d) (unfold hit in ground arith) in
            any_mono (λ t. str_eq p (dotted t)) (λ t. has d (dotted t)) (tails (l ∷ ls))
              (λ t e. let q = str_eq_sound p (dotted t) e in rw (← q) (has_of_bucket k p c))
              (sym (laws.matches_below p (l ∷ ls) (v k p c) h f) ∙ m)
      ]

  hit_complete :
      (l : Str) (ls : List Str)
      → AreLabels (l ∷ ls)
      → has d (dotted (l ∷ ls)) ≡ true
      → hit_of libs d (dotted (l ∷ ls)) ≡ true
  hit_complete l ls h y =
      let n = dotted (l ∷ ls) in
      let (k, i) = domain_to_index_total n (dotted-ne-nil l ls h) in
      rw (hit_of-eq libs d n k i) (unfold hit in ground (arith, has-eq d n k i))

  hits-covers :
      (ls : List Str)
      → AreLabels ls
      → AreFolded ls
      → any (λ t. hit_of libs d (dotted t)) (tails ls) ≡ covers d ls
  unfolding covers
  hits-covers [] h f = refl
  hits-covers (l ∷ ls) h f = elim (Bool-cases (hit_of libs d (dotted (l ∷ ls)))) [
    | inl y ↦ rw y (sym (unfold covers in hit_sound (l ∷ ls) (λ e. ground arith) h f y))
    | inr n ↦ rw n (ground (arith, hits-covers ls h.1 f.1, hit_complete l ls h))
  ]

  -- Under what is relied on of CoreDNS, on a set whose names are domain names in their buckets: Match returns, for a name of non-empty labels
  -- with no upper case letter and no escape, true exactly when the name or a name above it is in the set.
  pub match-covers :
      (ls : List Str)
      → ls ≢ []
      → AreLabels ls
      → AreFolded ls
      → match libs d (dotted ls) ≡ ret (covers d ls)
  match-covers ls ne h f = match-hits libs d ls ne h ∙ ap ret (hits-covers ls h f)

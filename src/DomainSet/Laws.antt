-- ===== src/DomainSet/Laws.antt =====
-- Add, Len and ForEachDomain of namelist.go, and the invariant that every name lies in its bucket.
use dnsredir.Base.{
  ◌∙◌, ap, sym, not, str_eq_sound, inr, ==_iff, Bool-cases, inl, str_eq, Option-cases, ◌||◌, ℕ, ◌+◌,
  Bool, true, false, Option, none, some, [], ◌∷◌, ◌==◌, if◌then◌else◌, length, Str, ret, ◌≡◌, ◌≢◌,
  refl, arith, split,
}
use dnsredir.Domain.{is_domain_name, string_to_domain}
use dnsredir.Domain.Valid.{string_to_domain_iff, is_domain_name_iff}
use dnsredir.Externals.{NameLibs}
use dnsredir.StringSet
use dnsredir.StringSet.{StringSet, contains, contains-add, length-add}
use dnsredir.DomainSet.{
  for_each_name, for_each_domain, DomainSet, bucket, put, len, domain_to_index, add_name, add,
}

-- The bucket that Match looks a name up in.
unfoldable pub bucket_of : DomainSet → Str → StringSet
bucket_of d n = elim (domain_to_index n) [ ret k ↦ bucket k d | _ ↦ [] ]

-- The set holds the name, in the bucket that the name's index gives.
unfoldable pub has : DomainSet → Str → Bool
unfolding bucket_of
has d n = contains (bucket_of d n) n

-- Every name lies in the bucket of its index.
abbrev pub WellBucketed : DomainSet → Type 0
WellBucketed d = (k : ℕ) (n : Str) → contains (bucket k d) n ≡ true → domain_to_index n ≡ ret k

pub domain_to_index_total : (n : Str) → n ≢ [] → (k : ℕ) × (domain_to_index n ≡ ret k)
unfolding domain_to_index
domain_to_index_total [] h = absurd (h refl)
domain_to_index_total (c ∷ []) h = (_, refl)
domain_to_index_total (c ∷ e ∷ n) h = (_, refl)

pub bucket-put :
    (i j : ℕ) (s : StringSet) (d : DomainSet)
    → bucket j (put i s d) ≡ (if i == j then s else bucket j d)
unfolding bucket put
bucket-put i j s [] = refl
bucket-put i j s ((k, t) ∷ d) = ground (arith, bucket-put i j s d)

len-put :
    (i : ℕ) (s : StringSet) (d : DomainSet)
    → len (put i s d) + length (bucket i d) ≡ len d + length s
unfolding len put bucket
len-put i s [] = omega arith
len-put i s ((k, t) ∷ d) = ground (arith, len-put i s d)

pub has-eq :
    (d : DomainSet) (n : Str) (k : ℕ)
    → domain_to_index n ≡ ret k
    → has d n ≡ contains (bucket k d) n
unfolding has bucket_of
has-eq d n k h = rw (h, bucket_of)

empty-not-domain : is_domain_name [] ≡ false
unfolding is_domain_name split
empty-not-domain = refl

pub string_to_domain-ne-nil :
    (lower : Str → Str) (s n : Str) → string_to_domain lower s ≡ some n → n ≢ []
string_to_domain-ne-nil lower s n h e =
    let v = (is_domain_name_iff n).1 ((string_to_domain_iff lower s n).0 h).0 in
    ground (arith, empty-not-domain)

-- A name that Add files is not empty.
pub add_name-ne-nil : (libs : NameLibs) (str n : Str) → add_name libs str ≡ some n → n ≢ []
unfolding add_name
add_name-ne-nil libs str n h e = ground (arith, string_to_domain-ne-nil libs.unicode_lower str n)

-- What Add does to the set.
abbrev pub insert : Option Str → DomainSet → DomainSet
insert none d = d
insert (some n) d = elim (domain_to_index n) [
  | ret k ↦ put k (StringSet.add (bucket k d) n) d
  | _ ↦ d
]

abbrev pub is_some : Option Str → Bool
is_some none = false
is_some (some n) = true

-- Add never panics.
pub add_lem :
    (libs : NameLibs) (d : DomainSet) (str : Str)
    → add libs d str ≡ ret (insert (add_name libs str) d, is_some (add_name libs str))
unfolding add
add_lem libs d str = elim (Option-cases (add_name libs str)) [
  | inl e ↦ rw (e, add)
  | inr (n, e) ↦
      let (k, i) = domain_to_index_total n (add_name-ne-nil libs str n e) in
      rw (e, add) (rw (i, insert))
]

-- The name that Add files for a text, if it is this one.
abbrev pub names_it : Option Str → Str → Bool
names_it none m = false
names_it (some n) m = str_eq n m

has-insert_some :
    (n m : Str) (k j : ℕ) (d : DomainSet)
    → domain_to_index n ≡ ret k
    → domain_to_index m ≡ ret j
    → has (put k (StringSet.add (bucket k d) n) d) m ≡ (str_eq n m || has d m)
has-insert_some n m k j d hn hm =
    rw (has-eq _ m j hm, has-eq d m j hm, bucket-put)
      (elim (Bool-cases (k == j)) [
        | inl e ↦
            rw e (let p : k ≡ j = (==_iff k j).0 e in rw (← p) (contains-add (bucket k d) n m))
        | inr ne ↦ rw ne (elim (Bool-cases (str_eq n m)) [
          | inl e ↦
              let p = str_eq_sound n m e in
              let q : ret k ≡ ret j = sym hn ∙ ap domain_to_index p ∙ hm in absurd (ground arith)
          | inr e ↦ rw e
        ])
      ])

-- After an Add the set holds what it held and the name that the text stands for, if there is one;
-- Add returns whether there is one.
pub has-insert :
    (o : Option Str) (m : Str) (d : DomainSet)
    → ((n : Str) → o ≡ some n → n ≢ [])
    → m ≢ []
    → has (insert o d) m ≡ (names_it o m || has d m)
has-insert none m d h hm = refl
has-insert (some n) m d h hm =
    let (k, i) = domain_to_index_total n (h n refl) in
    let (j, i') = domain_to_index_total m hm in rw (i, insert) (has-insert_some n m k j d i i')

WellBucketed-put :
    (n : Str) (k : ℕ) (d : DomainSet)
    → domain_to_index n ≡ ret k
    → WellBucketed d
    → WellBucketed (put k (StringSet.add (bucket k d) n) d)
WellBucketed-put n k d e w j m h = elim (Bool-cases (k == j)) [
  | inl q ↦
      let p : k ≡ j = (==_iff k j).0 q in
      let h' : (str_eq n m || contains (bucket k d) m) ≡ true =
        sym (contains-add (bucket k d) n m) ∙ sym (in_bucket (rw q)) ∙ h in
      elim (Bool-cases (str_eq n m)) [
        | inl f ↦ let g = str_eq_sound n m f in rw (← p) (rw (← g) e)
        | inr f ↦ rw (← p) (w k m (ground arith))
      ]
  | inr q ↦ w j m (sym (in_bucket (rw q)) ∙ h)
]
  where
    in_bucket :
        {t : StringSet}
        → (if k == j then StringSet.add (bucket k d) n else bucket j d) ≡ t
        → contains (bucket j (put k (StringSet.add (bucket k d) n) d)) m ≡ contains t m
    in_bucket e = rw bucket-put (ap (λ u. contains u m) e)

-- Add keeps every name in the bucket of its index.
pub WellBucketed-insert :
    (o : Option Str) (d : DomainSet)
    → ((n : Str) → o ≡ some n → n ≢ [])
    → WellBucketed d
    → WellBucketed (insert o d)
WellBucketed-insert none d h w = w
WellBucketed-insert (some n) d h w =
    let (k, i) = domain_to_index_total n (h n refl) in rw (i, insert) (WellBucketed-put n k d i w)

abbrev pub is_new : Option Str → DomainSet → Bool
is_new none d = false
is_new (some n) d = not (has d n)

len-insert :
    (o : Option Str) (d : DomainSet)
    → ((n : Str) → o ≡ some n → n ≢ [])
    → len (insert o d) ≡ (if is_new o d then len d + 1 else len d)
len-insert none d h = refl
len-insert (some n) d h =
    let (k, i) = domain_to_index_total n (h n refl) in
    rw (i, insert)
      (ground (
        arith,
        has-eq d n k i,
        length-add (bucket k d) n,
        len-put k (StringSet.add (bucket k d) n) d,
      ))

-- Add keeps the names in their buckets, adds the name that the text stands for and no other, and
-- counts it once.
pub add-has :
    (libs : NameLibs) (d : DomainSet) (str : Str)
    → WellBucketed d
    → (e : DomainSet) × (ok : Bool) × (add libs d str ≡ ret (e, ok))
      × (ok ≡ is_some (add_name libs str))
      × WellBucketed e
      × ((m : Str) → m ≢ [] → has e m ≡ (names_it (add_name libs str) m || has d m))
      × (len e ≡ (if is_new (add_name libs str) d then len d + 1 else len d))
add-has libs d str w = (
  insert (add_name libs str) d,
  is_some (add_name libs str),
  add_lem libs d str,
  refl,
  WellBucketed-insert (add_name libs str) d (add_name-ne-nil libs str) w,
  λ m hm. has-insert (add_name libs str) m d (add_name-ne-nil libs str) hm,
  len-insert (add_name libs str) d (add_name-ne-nil libs str),
)

for_each_name-none :
    {E : Type 0} (f : Str → Option E) (s : StringSet)
    → for_each_name f s ≡ none
    → (n : Str) → contains s n ≡ true
    → f n ≡ none
unfolding for_each_name
for_each_name-none f [] e n h = absurd (ground arith)
for_each_name-none f (x ∷ s) e n h = elim (Option-cases (f x)) [
  | inl p ↦ elim (Bool-cases (str_eq x n)) [
    | inl q ↦ ap f (sym (str_eq_sound x n q)) ∙ p
    | inr q ↦ for_each_name-none f s (rw (p, for_each_name) at e) n (ground arith)
  ]
  | inr (y, p) ↦ absurd (ground arith)
]

-- If the walk of ForEachDomain meets no error, then no name in the set gives one.
pub for_each_domain-none :
    {E : Type 0} (f : Str → Option E) (d : DomainSet)
    → for_each_domain f d ≡ none
    → (k : ℕ) (n : Str) → contains (bucket k d) n ≡ true
    → f n ≡ none
unfolding for_each_domain bucket
for_each_domain-none f [] e k n h = absurd (ground arith)
for_each_domain-none f ((i, s) ∷ d) e k n h = elim (Option-cases (for_each_name f s)) [
  | inl p ↦ elim (Bool-cases (i == k)) [
    | inl q ↦ for_each_name-none f s p n (rw (q, bucket) at h)
    | inr q ↦ for_each_domain-none f d (rw (p, for_each_domain) at e) k n (rw (q, bucket) at h)
  ]
  | inr (y, p) ↦ absurd (ground arith)
]

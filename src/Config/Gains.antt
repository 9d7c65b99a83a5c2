-- ===== src/Config/Gains.antt =====
-- What the names of a block's lines add to a set.
use dnsredir.Base.{List, [], ◌∷◌, ◌++◌, ◌||◌, any, any-append, Str, ◌≡◌, ◌≢◌, refl, arith}
use dnsredir.Base.Result.{ok-injective, ok}
use dnsredir.Externals.{NameLibs}
use dnsredir.DomainSet.{DomainSet, add_name}
use dnsredir.DomainSet.Laws.{
  has, WellBucketed, names_it, insert, add_lem, add_name-ne-nil, has-insert, WellBucketed-insert,
}
use dnsredir.Config.Block.{add_names}

-- The set has got the names of the texts, and no other name; the names are still in their buckets.
abbrev pub HasGot : NameLibs → List Str → DomainSet → DomainSet → Type 0
HasGot libs texts d d' =
    (WellBucketed d → WellBucketed d')
    × ((n : Str) → n ≢ [] → has d' n ≡ (any (λ t. names_it (add_name libs t) n) texts || has d n))

pub HasGot-refl : (libs : NameLibs) (d : DomainSet) → HasGot libs [] d d
HasGot-refl libs d = (λ w. w, λ n h. refl)

pub HasGot-trans :
    (libs : NameLibs) (xs ys : List Str) (d e f : DomainSet)
    → HasGot libs xs d e
    → HasGot libs ys e f
    → HasGot libs (xs ++ ys) d f
HasGot-trans libs xs ys d e f (w, h) (v, g) = (
  λ b. v (w b),
  λ n ne. ground (arith, any-append (λ t. names_it (add_name libs t) n) xs ys, h n ne, g n ne),
)

pub HasGot-add :
    (libs : NameLibs) (d : DomainSet) (str : Str)
    → HasGot libs (str ∷ []) d (insert (add_name libs str) d)
HasGot-add libs d str =
    let ne = add_name-ne-nil libs str in
    (
      WellBucketed-insert (add_name libs str) d ne,
      λ n hn. ground (arith, has-insert (add_name libs str) n d ne hn),
    )

-- The names of an except line.
pub add_names-HasGot :
    (libs : NameLibs) (d : DomainSet) (args : List Str) (d' : DomainSet)
    → add_names libs d args ≡ ok d'
    → HasGot libs args d d'
unfolding add_names
add_names-HasGot libs d [] d' e = let q : d ≡ d' = ok-injective e in rw (← q) (HasGot-refl libs d)
add_names-HasGot libs d (name ∷ args) d' e =
    HasGot-trans libs (name ∷ []) args d _ d' (HasGot-add libs d name) (
      add_names-HasGot libs (insert (add_name libs name) d) args d' (rw (add_lem libs d name) at e))

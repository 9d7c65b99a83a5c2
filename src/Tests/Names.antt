-- ===== src/Tests/Names.antt =====
-- Domain names, domain sets and the rules of an upstream.
use dnsredir.Base.{
  ◌==◌, ℕ, Bool, true, false, ◌⊎◌, ◌↔◌, some, List, [], ◌∷◌, ◌++◌, Str, codes, str_eq, str_eq_sound,
  to_lower, if◌then◌else◌, ret, panic, ◌≡◌, refl, sym, ◌∙◌, arith, ==_iff, ||-false, ◌==◌,
}
use mathlib.Core.Path.{subst}
use dnsredir.Domain.{is_domain_name, string_to_domain}
use dnsredir.Domain.Labels.{dotted}
use dnsredir.Domain.Valid.{IsDomain, is_domain_name_iff, string_to_domain_iff}
use dnsredir.Externals.{AreLabels, AreFolded}
use dnsredir.StringSet.{contains}
use dnsredir.DomainSet.{DomainSet, hit, bucket, match, domain_to_index}
use dnsredir.DomainSet.Laws.{WellBucketed, bucket_of, has}
use dnsredir.DomainSet.Match.{match_trailing_dot, hit_of}
use dnsredir.DomainSet.Search.{AreDomains, covers, match-covers}
use dnsredir.NameList.{NameItem, path_item}
use dnsredir.Config.{Upstream, initial}
use dnsredir.Tests.World.{ascii_names, ascii_names-NameLaws}

rejects_hyphen : is_domain_name (codes "-a.cn") ≡ false
unfolding is_domain_name
rejects_hyphen = refl

string_to_domain_iff_example :
    (string_to_domain (λ s. s) (codes "Www.CN.") ≡ some (codes "www.cn")) ↔ (
      IsDomain (codes "www.cn")
      × ((to_lower (λ s. s) (codes "Www.CN.") ≡ codes "www.cn")
          ⊎ (to_lower (λ s. s) (codes "Www.CN.") ≡ codes "www.cn" ++ b'.' ∷ [])))
string_to_domain_iff_example = string_to_domain_iff (λ s. s) (codes "Www.CN.") (codes "www.cn")

-- The set of "cn" alone.
abbrev cn : DomainSet
cn = (25454, codes "cn" ∷ []) ∷ []

cn_only : (k : ℕ) (n : Str) → contains (bucket k cn) n ≡ true → (25454 ≡ k) × (codes "cn" ≡ n)
unfolding bucket
cn_only k n h = by_key (25454 == k) refl h
  where
    by_key :
        (b : Bool)
        → (25454 == k) ≡ b
        → contains (if b then codes "cn" ∷ [] else []) n ≡ true
        → (25454 ≡ k) × (codes "cn" ≡ n)
    by_key true e c = (
      (==_iff 25454 k).0 e,
      str_eq_sound (codes "cn") n (sym (||-false (str_eq (codes "cn") n)) ∙ c),
    )
    by_key false e c = absurd (ground arith)

cn-WellBucketed : WellBucketed cn
cn-WellBucketed k n h =
    let (e, f) = cn_only k n h in
    subst (λ m. domain_to_index m ≡ ret k) f
      (subst (λ i. domain_to_index (codes "cn") ≡ ret i) e (unfold domain_to_index in refl))

cn-AreDomains : AreDomains cn
cn-AreDomains k n h =
    let f = (cn_only k n h).1 in
    subst IsDomain f ((is_domain_name_iff (codes "cn")).0 (unfold is_domain_name in refl))

abbrev www_cn : List Str
www_cn = codes "www" ∷ codes "cn" ∷ []

www_cn-AreLabels : AreLabels www_cn
www_cn-AreLabels = omega arith

www_cn-AreFolded : AreFolded www_cn
www_cn-AreFolded = omega arith

covers-www_cn : covers cn www_cn ≡ true
unfolding covers has domain_to_index dotted bucket
covers-www_cn = refl

match-covers_example : match ascii_names cn (dotted www_cn) ≡ ret (covers cn www_cn)
match-covers_example =
    match-covers ascii_names cn ascii_names-NameLaws cn-WellBucketed cn-AreDomains www_cn
      (λ e. ground arith) www_cn-AreLabels www_cn-AreFolded

org_misses : hit_of ascii_names cn (dotted (codes "org" ∷ []) ++ b'.' ∷ []) ≡ false
unfolding hit_of bucket_of domain_to_index bucket dotted hit
org_misses = refl

match_trailing_dot_example : match ascii_names cn (dotted (codes "org" ∷ []) ++ b'.' ∷ []) ≡ panic
match_trailing_dot_example =
    match_trailing_dot ascii_names cn (codes "org" ∷ []) (λ e. ground arith) (omega arith)
      (rw org_misses refl)

-- An item of one name.
abbrev cn_item : NameItem
cn_item = record (path_item (codes "cn.txt")) { names = cn }

-- An upstream of that item, with the same name excepted.
abbrev cn_upstream : Upstream
cn_upstream = record initial { items = some cn_item ∷ []; inline = cn; ignored = cn }

-- ===== src/Upstream/Rules.antt =====
-- What an upstream's Match decides, in terms of the names in its sets.
use dnsredir.Base.{
  Bool, true, false, not, ◌&&◌, ◌||◌, List, [], any, All, Str, Run, ret, panic, ◌>>=◌, ◌≡◌, ◌≢◌,
  arith, if◌then◌else◌,
}
use dnsredir.Externals.{NameLibs, NameLaws, AreLabels, AreFolded}
use dnsredir.Domain.Labels.{dotted}
use dnsredir.DomainSet
use dnsredir.DomainSet.Laws.{WellBucketed}
use dnsredir.DomainSet.Search.{AreDomains, covers, match-covers}
use dnsredir.NameList
use dnsredir.NameList.Lookup.{IsSearchable, item_covers, match-any_covers}
use dnsredir.Config.{Upstream}
use dnsredir.Upstream.{matches}

-- The sets of an upstream are as the loader builds them, of domain names.
pub record IsLoaded (u : Upstream) : Type 0 where
  pub items : All IsSearchable u.items
  pub inline : WellBucketed u.inline × AreDomains u.inline
  pub ignored : WellBucketed u.ignored × AreDomains u.ignored

-- Under what is relied on of CoreDNS and of idna, and on an upstream whose sets hold domain names in
-- their buckets: Match takes a name of non-empty labels, with no upper case letter and no escape, exactly when the
-- upstream is for all names, or a list or the INLINE names hold it or a name above it; and except holds
-- neither it nor a name above it. It does not panic.
pub matches_lem :
    (libs : NameLibs) (root_matches : Str → Bool) (u : Upstream) (ls : List Str)
    → NameLaws libs
    → ((s : Str) → root_matches s ≡ true)
    → IsLoaded u
    → ls ≢ []
    → AreLabels ls
    → AreFolded ls
    → matches libs root_matches u (dotted ls)
      ≡ ret (
          (u.match_any || any (item_covers ls) u.items || covers u.inline ls)
          && not (covers u.ignored ls))
matches_lem libs root_matches u ls laws root l ne h f =
    unfold matches in
    by_parts u.match_any (root_matches (dotted ls)) (NameList.match libs u.items (dotted ls))
      (DomainSet.match libs u.inline (dotted ls)) (DomainSet.match libs u.ignored (dotted ls))
      (any (item_covers ls) u.items) (covers u.inline ls) (covers u.ignored ls) (root (dotted ls))
      (match-any_covers libs u.items ls laws l.items ne h f)
      (match-covers libs u.inline laws l.inline.0 l.inline.1 ls ne h f)
      (match-covers libs u.ignored laws l.ignored.0 l.ignored.1 ls ne h f)
  where
    by_parts :
        (all root : Bool) (list inline ignore : Run Bool) (listed inlined ignored : Bool)
        → root ≡ true
        → list ≡ ret listed
        → inline ≡ ret inlined
        → ignore ≡ ret ignored
        → (if all
            then (if not root then panic else (ignore >>= λ g. ret (not g)))
            else (list >>= λ l. elim l [ true ↦ ret true | false ↦ inline ] >>= λ found.
                elim (not found) [
                  | true ↦ ret false
                  | false ↦ ignore >>= λ g. ret (if g then false else true)
                ]))
          ≡ ret ((all || listed || inlined) && not ignored)
    by_parts all root list inline ignore listed inlined ignored a b c d = ground arith

-- ===== src/Externals.antt =====
-- The code outside the repository that the name lists call, as a parameter.
use dnsredir.Base.{
  ◌≢◌, ◌⊎◌, some, [], ◌<◌, ◌≡◌, Bool, Option, List, All, any, Str, str_eq, Lacks, length,
}
use dnsredir.Domain.Labels.{dotted, tails}
use dnsredir.Domain.Valid.{IsDomain}

-- unicode_lower: what strings.ToLower does with a text that is not ASCII.
-- to_ascii: idna.ToASCII, `none` for an error.
-- name_matches p c: plugin.Name(p).Matches(c) of CoreDNS.
pub record NameLibs : Type 0 where
  pub unicode_lower : Str → Str
  pub to_ascii : Str → Option Str
  pub name_matches : Str → Str → Bool

-- The labels of a name as it arrives: no label is empty, none holds a dot.
abbrev pub AreLabels : List Str → Type 0
AreLabels = All (λ l. (0 < length l) × Lacks b'.' l)

-- No upper case letter and no escape: a request's name as CoreDNS hands it on, in the usual letters.
abbrev pub AreFolded : List Str → Type 0
AreFolded = All (All (λ c. (c ≢ b'\\') × ((c < b'A') ⊎ (b'Z' < c))))

-- What CoreDNS documents of Matches, on such a name: a domain name matches itself and the names
-- below it. And
-- idna.ToASCII of the empty text is empty, with no error.
pub record NameLaws (libs : NameLibs) : Type 0 where
  pub matches_below :
      (p : Str) (ls : List Str)
      → IsDomain p
      → AreLabels ls
      → AreFolded ls
      → libs.name_matches p (dotted ls) ≡ any (λ t. str_eq p (dotted t)) (tails ls)
  pub ascii_of_empty : libs.to_ascii [] ≡ some []

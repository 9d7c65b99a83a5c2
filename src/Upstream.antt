-- ===== src/Upstream.antt =====
-- reloadableUpstream.Match in upstream.go: which requests an upstream takes.
pub mod Rules
use dnsredir.Base.{Bool, true, false, not, if◌then◌else◌, Str, Run, ret, panic, no_fuel, ◌>>=◌}
use dnsredir.Externals.{NameLibs}
use dnsredir.DomainSet
use dnsredir.NameList
use dnsredir.Config.{Upstream}

-- Match; root_matches is plugin.Name(".").Matches of CoreDNS.
unfoldable pub matches : NameLibs → (Str → Bool) → Upstream → Str → Run Bool
matches libs root_matches u name =
    if u.match_any
    then (if not (root_matches name)
        then panic
        else do ignored ← DomainSet.match libs u.ignored name; ret (not ignored))
    else do
      listed ← NameList.match libs u.items name
      found ← elim listed [ true ↦ ret true | false ↦ DomainSet.match libs u.inline name ]
      elim (not found) [
        | true ↦ ret false
        | false ↦
            DomainSet.match libs u.ignored name >>= λ ignored. ret (if ignored then false else true)
      ]

-- ===== src/Config/Block/Args.antt =====
-- The parsers of arguments in upstream.go: parseDuration, parseInt32 and the addresses of parseBootstrap.
use dnsredir.Base.{
  ℕ, ◌-◌, Bool, not, ◌&&◌, none, some, List, [], ◌∷◌, ◌++◌, length, take, drop, if◌then◌else◌, ltb,
  ◌==◌, Str, codes, has_prefix,
}
use dnsredir.Base.Int.{pos, negsuc}
use dnsredir.Base.Result.{Result, ok, err, crash, ◌>>=◌, err_if, of_option}
use dnsredir.Domain.{byte_is}
use dnsredir.HostPort.{parts, missing_port, bad_address}
use dnsredir.Config.{SetupLibs}

-- parseDuration0: not negative.
unfoldable pub parse_duration0 : SetupLibs → Str → Result ℕ
parse_duration0 libs arg = elim (libs.parse_duration arg) [
  | none ↦ err
  | some d ↦ elim d [ pos n ↦ ok n | negsuc n ↦ err ]
]

-- parseDuration and parseInt32 take one argument.
unfoldable pub parse_duration : SetupLibs → List Str → Result ℕ
unfolding parse_duration0
parse_duration libs (arg ∷ []) = parse_duration0 libs arg
parse_duration libs _ = err

unfoldable pub parse_int32 : SetupLibs → List Str → Result ℕ
parse_int32 libs (arg ∷ []) = elim (libs.atoi arg) [
  | none ↦ err
  | some i ↦ elim i [ pos n ↦ if ltb 0x7fffffff n then err else ok n | negsuc n ↦ err ]
]
parse_int32 libs _ = err

-- Below the minimum, and not the zero that switches the feature off.
abbrev pub too_short : ℕ → ℕ → Bool
too_short dur least = ltb dur least && not (dur == 0)

-- The host of a bootstrap address, without the brackets that stand for IPv6; with an opening
-- bracket alone the source panics.
unfoldable pub strip_brackets : Str → Result Str
strip_brackets host =
    if has_prefix host (codes "[")
    then (if byte_is host (length host - 1) b']'
        then ok (take (length host - 2) (drop 1 host))
        else crash)
    else ok host

-- The port must be a positive number.
unfoldable pub check_port : SetupLibs → Str → Result (Unit {0})
check_port libs port = elim (libs.atoi port) [
  | none ↦ err
  | some i ↦ elim i [ pos n ↦ err_if (n == 0) | negsuc n ↦ err ]
]

unfoldable pub bootstrap_address : SetupLibs → Str → Str → Result Str
unfolding strip_brackets
bootstrap_address libs host port = do
  bare ← strip_brackets host
  ip ← of_option (libs.net.parse_ip bare)
  ok (if ip.is_v4 then ip.text ++ codes ":" ++ port else codes "[" ++ ip.text ++ codes "]:" ++ port)

unfoldable pub bootstrap_of : SetupLibs → Str → Result Str
unfolding bootstrap_address check_port
bootstrap_of libs hp = elim (libs.net.split_host_port hp) [
  | missing_port ↦ bootstrap_address libs hp (codes "53")
  | bad_address ↦ err
  | parts host port ↦ check_port libs port >>= λ _. bootstrap_address libs host port
]

unfoldable pub bootstrap_list : SetupLibs → List Str → Result (List Str)
unfolding bootstrap_of
bootstrap_list libs [] = ok []
bootstrap_list libs (hp ∷ args) = do
  first ← bootstrap_of libs hp
  list ← bootstrap_list libs args
  ok (first ∷ list)

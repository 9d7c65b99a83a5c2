-- ===== src/Handler.antt =====
-- ServeDNS of dnsredir.go as a whole: the match of an upstream, the loop over its hosts, the addresses that
-- go to the kernel's sets, and what is written to the client. A reply is a number, whose code and
-- answers the environment knows. Only one of the two kinds of sets exists in a build; the other is `none`.
pub mod Prepared
use dnsredir.Base.{ℕ, Bool, Option, none, some, List, [], ◌∷◌, ◌++◌, map, Str, Run, ret, ◌>>=◌}
use dnsredir.Addresses.{Record}
use dnsredir.IpSet.{IpSetLibs, IpSetHandle, ipset_add_ip}
use dnsredir.Pf.{Table, PfLibs, PfHandle, pf_add_ip}
use dnsredir.Serve.{
  Served, reply, format_error, no_healthy, upstream_error, World, Attempts, serve, match_name,
}

-- What ServeDNS does in order: calls that add an address, and messages to the client.
pub data Effect : Type 0 where
  set_add : Str × Str → Effect
  table_add : Table × Str → Effect
  write : ℕ → Effect
  write_format_error : Effect

-- What ServeDNS returns: what the next plugin returns, the code of a success, or that of a server
-- failure with errNoHealthy or with the error of an exchange.
pub data Returned : Type 0 where
  next_plugin : Returned
  success : Returned
  failure : Option ℕ → Returned

-- What of an upstream the handler reads, and what its hosts answer.
pub record Backend : Type 0 where
  pub ipset : Option IpSetHandle
  pub pf : Option PfHandle
  pub max_retry : ℕ
  pub max_fails : ℕ
  pub world : World

pub record Replies : Type 0 where
  pub ipset_libs : IpSetLibs
  pub pf_libs : PfLibs
  pub rcode : ℕ → ℕ
  pub answer : ℕ → List Record

-- ipsetAddIP and pfAddIP in front of the reply.
unfoldable pub add_ips : Replies → Backend → ℕ → List Effect
unfolding ipset_add_ip pf_add_ip
add_ips env b r =
    map set_add (ipset_add_ip env.ipset_libs b.ipset (env.rcode r) (env.answer r))
    ++ map table_add (pf_add_ip env.pf_libs b.pf (env.rcode r) (env.answer r))

unfoldable pub respond : Replies → Backend → Served → Returned × List Effect
unfolding add_ips
respond env b (reply r) = (success, add_ips env b r ++ write r ∷ [])
respond env b format_error = (success, write_format_error ∷ [])
respond env b no_healthy = (failure none, [])
respond env b (upstream_error e) = (failure (some e), [])

unfoldable pub handle : ℕ → ℕ → Replies → Option Backend → Run (Returned × List Effect)
unfolding serve respond
handle fuel inner env none = ret (next_plugin, [])
handle fuel inner env (some b) =
    serve fuel inner b.world b.max_retry b.max_fails >>= λ served. ret (respond env b (served.0))

-- ServeDNS on the upstreams and the name of the request.
unfoldable pub serve_dns :
    (Backend → Str → Run Bool) → ℕ → ℕ → Replies → List Backend → Str → Run (Returned × List Effect)
unfolding match_name handle
serve_dns matches fuel inner env ups name = match_name matches ups name >>= handle fuel inner env

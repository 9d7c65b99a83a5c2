-- ===== src/Tests/Web.antt =====
-- DNS over HTTPS on a toy client, and URLs that name other URLs.
use dnsredir.Base.{
  ◌<◌, length, List, ◌↔◌, ◌==◌, true, false, Option, none, some, [], ◌∷◌, Str, codes, str_eq,
  if◌then◌else◌, inr, ret, ◌≡◌, refl,
}
use dnsredir.Base.Result.{ok}
use dnsredir.Config.{UpstreamHost}
use dnsredir.Config.Finish.{init_doh}
use dnsredir.Domain.{split_by_byte}
use dnsredir.HostPort.{has_suffix_doh}
use dnsredir.Doh.{Request, Reply, DohLibs, doh_exchange}
use dnsredir.Doh.Dispatch.{Leaves, doh_exchange-Leaves}
use dnsredir.Probe.{probe_request, is_error, send}
use dnsredir.Probe.Sends.{send-doh_exchange}
use dnsredir.UrlContent.{UrlResponse, Web, get_url_content}
use dnsredir.UrlContent.Hops.{Leads, IsServed, get_url_content_iff}

abbrev toy_doh : DohLibs
toy_doh = record {
  type_to_string = λ t. if t == 2 then some (codes "NS") else none;
  format_uint = λ t. codes "1";
  query_escape = λ s. s;
  pack = λ r. some (codes "m");
  unpack = λ b. some (record { id = 0; content = 9 });
  base64 = λ b. b;
  client = λ req. some (record {
    status_code = 200;
    content_type = codes "application/dns-message";
    body = some (codes "r");
  });
  json_decode = λ b. none;
  json_reply = λ r resp n. record { id = r.id; content = n };
}

abbrev probe_query : Request
probe_query = record {
  id = 4;
  response = false;
  questions = record { name = codes "."; qtype = 2; qclass = 1 } ∷ [];
  checking_disabled = false;
  edns_do = none;
  writer_size = none;
}

abbrev doh_host : Str → Str → Str → UpstreamHost
doh_host proto net content_type = record {
  proto = proto;
  addr = codes "a.b/dns";
  recursion_desired = true;
  expire = 1;
  tls = none;
  client_net = net;
  request_content_type = content_type;
}

doh_answers :
    doh_exchange toy_doh (doh_host (codes "https") [] (codes "?/?")) false probe_query
    ≡ ret (some (record { id = 4; content = 9 }), probe_query)
unfolding doh_exchange split_by_byte
doh_answers = refl

prepared : init_doh (doh_host (codes "doh") [] []) ≡ ok (doh_host (codes "https") [] (codes "?/?"))
unfolding init_doh
prepared = refl

is_doh_proto : has_suffix_doh (codes "doh") ≡ true
is_doh_proto = refl

doh_exchange-Leaves_example :
    (a : Option Reply × Request) × (doh_exchange toy_doh
        (doh_host (codes "https") [] (codes "?/?"))
        true
        probe_query
      ≡ ret a)
    × Leaves toy_doh probe_query a
doh_exchange-Leaves_example =
    doh_exchange-Leaves toy_doh (doh_host (codes "doh") [] [])
      (doh_host (codes "https") [] (codes "?/?")) true probe_query is_doh_proto prepared
      (inr (record { name = codes "."; qtype = 2; qclass = 1 }, refl, refl, refl))

-- The first server answers with a page that names the second one, which has the list.
abbrev page : UrlResponse
page = record {
  status_code = 200;
  content_type = codes "text/html";
  location = codes "https://b";
  body = some (codes "p");
}

abbrev list : UrlResponse
list = record {
  status_code = 200;
  content_type = codes "text/plain";
  location = [];
  body = some (codes "cn");
}

abbrev two_servers : Web
two_servers = record {
  get = λ u. if str_eq u (codes "https://a") then some page else some list;
  parses = λ u. true;
}

abbrev one_server : Web
one_server = record { get = λ u. some page; parses = λ u. true }

get_url_content_iff_example :
    (get_url_content 2 two_servers (codes "text/plain") (codes "https://a")
      ≡ ret (some (codes "cn")))
    ↔ ((urls : List Str) × (last : Str) × (length urls < 2)
        × Leads two_servers (codes "text/plain") (codes "https://a") urls last
        × IsServed two_servers (codes "text/plain") last (codes "cn"))
get_url_content_iff_example =
    get_url_content_iff 2 two_servers (codes "text/plain") (codes "https://a") (codes "cn")

follows_one :
    get_url_content 2 two_servers (codes "text/plain") (codes "https://a") ≡ ret (some (codes "cn"))
unfolding get_url_content
follows_one = refl

send-doh_exchange_example :
    (reply : Option Reply) × (r : Request) × (doh_exchange toy_doh
        (doh_host (codes "https") [] (codes "?/?"))
        true
        (probe_request 4)
      ≡ ret (reply, r))
    × (send toy_doh
          (doh_host (codes "https") [] (codes "?/?"))
          true
          (λ r. true)
          4
          (record { msg = none; rtt = 0; has_error = true })
          7
        ≡ ret (is_error reply, 7))
send-doh_exchange_example =
    send-doh_exchange toy_doh (doh_host (codes "doh") [] [])
      (doh_host (codes "https") [] (codes "?/?")) true (λ r. true) 4
      (record { msg = none; rtt = 0; has_error = true }) 7 is_doh_proto prepared

-- A probe over UDP that gets a header in a malformed message passes.
malformed_passes :
    send toy_doh
      (doh_host (codes "udp") [] [])
      true
      (λ r. true)
      4
      (record { msg = some (true, false); rtt = 3; has_error = true })
      7
    ≡ ret (false, 3)
unfolding send
malformed_passes = refl

-- ===== src/Doh/Dispatch.antt =====
-- A host that setup has prepared for DNS over HTTPS exchanges without a panic.
use dnsredir.Base.{
  ℕ, Bool, true, false, ◌⊎◌, inl, inr, Option, none, some, [], ◌∷◌, if◌then◌else◌, Str, codes,
  str_eq, Run, ret, panic, ◌>>=◌, ◌≡◌, refl, arith, Bool-cases, ◌||◌,
}
use dnsredir.Base.Result.{ok}
use dnsredir.Config.{UpstreamHost}
use dnsredir.Config.Finish.{init_doh}
use dnsredir.HostPort.{has_suffix_doh}
use dnsredir.Domain.{split_by_byte}
use dnsredir.Doh.{
  mime_type_dns_udp_wire_format, mime_type_json, on_answer, wire_request, Question, Request, Reply,
  JsonResponse, HttpRequest, HttpResponse, DohLibs, mime_type_dns_json, mime_type_dns_message,
  type_ns, json_request, packed, ietf_request, json_body, json_finish, json_parse, wire_parse,
  reply_size, bad_status, parse_response, draw_content_type, send_http, doh_by_type, doh_exchange,
}

-- A request from a client, or the one that health checks send.
abbrev pub IsAsked : Request → Type 0
IsAsked r =
    ((n : ℕ) × (r.writer_size ≡ some n))
    ⊎ ((q : Question) × (r.questions ≡ q ∷ []) × (q.name ≡ codes ".") × (q.qtype ≡ type_ns))

-- It ends with a reply or an error.
abbrev pub Returns {ℓ} : {A : Type ℓ} → Run A → Type ℓ
Returns {A = A} o = (a : A) × (o ≡ ret a)

reply_size-Returns : (r : Request) → IsAsked r → Returns (reply_size r.writer_size r.questions)
unfolding reply_size
reply_size-Returns r (inl (n, e)) = rw e (_, refl)
reply_size-Returns r (inr (q, e, f, g)) = by_size r.writer_size
  where
    by_size : (o : Option ℕ) → Returns (reply_size o r.questions)
    by_size (some n) = (_, refl)
    by_size none = rw (e, f, g) (512, refl)

json_finish-Returns :
    (libs : DohLibs) (r : Request) (o : Option JsonResponse)
    → IsAsked r
    → Returns (json_finish libs r o)
json_finish-Returns libs r none a = (none, refl)
json_finish-Returns libs r (some resp) a =
    let (n, e) = reply_size-Returns r a in rw (e, ◌>>=◌) (_, refl)

json_parse-Returns :
    (libs : DohLibs) (r : Request) (resp : HttpResponse) (c d : Str)
    → IsAsked r
    → Returns (json_parse libs r resp c d)
unfolding json_parse
json_parse-Returns libs r resp c d a = elim (Bool-cases (bad_status resp c d)) [
  | inl e ↦ rw e (none, refl)
  | inr e ↦ rw e (json_finish-Returns libs r (json_body libs resp.body) a)
]

wire_parse-Returns :
    (libs : DohLibs) (r : Request) (resp : HttpResponse) (c d : Str)
    → Returns (wire_parse libs r resp c d)
unfolding wire_parse
wire_parse-Returns libs r resp c d = elim (Bool-cases (bad_status resp c d)) [
  | inl e ↦ rw e (none, refl)
  | inr e ↦ rw e (_, refl)
]

-- The two formats that a request may have.
abbrev pub IsFormat : Str → Type 0
IsFormat c = (c ≡ mime_type_dns_json) ⊎ (c ≡ mime_type_dns_message)

if-Returns {ℓ} :
    {A : Type ℓ} (b : Bool) (x y : Run A) → Returns x → Returns y → Returns (if b then x else y)
if-Returns true x y p q = p
if-Returns false x y p q = q

-- One of the two formats is the request's.
by_format :
    (c : Str) (x y : Run (Option Reply))
    → IsFormat c
    → Returns x
    → Returns y
    → Returns (
        if str_eq c mime_type_dns_json
        then x
        else if str_eq c mime_type_dns_message
        then y
        else panic)
by_format c x y (inl e) p q = rw e p
by_format c x y (inr e) p q = rw e q

parse_response-Returns :
    (libs : DohLibs) (r : Request) (resp : HttpResponse) (c : Str)
    → IsFormat c
    → IsAsked r
    → Returns (parse_response libs r resp c)
unfolding parse_response
parse_response-Returns libs r resp c f a =
    let d = (split_by_byte resp.content_type b';').0 in
    let json = json_parse-Returns libs r resp d c a in
    let wire = wire_parse-Returns libs r resp d c in
    if-Returns (str_eq d mime_type_json || str_eq d mime_type_dns_json) _ _ json (
      if-Returns (str_eq d mime_type_dns_message || str_eq d mime_type_dns_udp_wire_format) _ _ wire
        (by_format c (json_parse libs r resp d c) (wire_parse libs r resp d c) f json wire))

on_answer-Returns :
    (libs : DohLibs) (r : Request) (c : Str) (o : Option HttpResponse)
    → IsFormat c
    → IsAsked r
    → Returns (on_answer libs r c o)
on_answer-Returns libs r c none f a = (none, refl)
on_answer-Returns libs r c (some resp) f a = parse_response-Returns libs r resp c f a

send_http-Returns :
    (libs : DohLibs) (r : Request) (c : Str) (o : Option HttpRequest)
    → IsFormat c
    → IsAsked r
    → Returns (send_http libs r c o)
unfolding send_http
send_http-Returns libs r c none f a = (none, refl)
send_http-Returns libs r c (some req) f a = on_answer-Returns libs r c (libs.client req) f a

-- What an exchange leaves: a reply or an error, and the request as it was, or with the id 0 and an
-- error where the message cannot be packed.
abbrev pub Leaves : DohLibs → Request → Option Reply × Request → Type 0
Leaves libs r a =
    (a.1 ≡ r) ⊎ ((libs.pack (record r { id = 0 }) ≡ none) × (a ≡ (none, record r { id = 0 })))

ietf_request-Leaves :
    (libs : DohLibs) (host : UpstreamHost) (c : Str) (r : Request) (o : Option Str)
    → libs.pack (record r { id = 0 }) ≡ o
    → IsFormat c
    → IsAsked r
    → (a : Option Reply × Request) × ((send_http libs
            (packed libs host c r o).1
            c
            (packed libs host c r o).0
          >>= λ reply. ret (reply, (packed libs host c r o).1))
        ≡ ret a)
      × Leaves libs r a
ietf_request-Leaves libs host c r none e f a =
    ((none, record r { id = 0 }), unfold send_http in refl, inr (e, refl))
ietf_request-Leaves libs host c r (some bytes) e f a =
    let (reply, p) = send_http-Returns libs r c (some (wire_request libs host c bytes)) f a in
    ((reply, r), rw (p, ◌>>=◌) refl, inl refl)

doh_by_type-Leaves :
    (libs : DohLibs) (host : UpstreamHost) (r : Request) (c : Str)
    → IsFormat c
    → IsAsked r
    → (a : Option Reply × Request) × (doh_by_type libs host r c ≡ ret a) × Leaves libs r a
unfolding doh_by_type ietf_request
doh_by_type-Leaves libs host r c (inl e) a =
    let (reply, p) =
      send_http-Returns libs r c (json_request libs host c r r.questions) (inl e) a in
    let t : str_eq c mime_type_dns_json ≡ true = rw e refl in
    ((reply, r), rw t (rw (p, ◌>>=◌) refl), inl refl)
doh_by_type-Leaves libs host r c (inr e) a =
    let (b, p, l) =
      ietf_request-Leaves libs host c r (libs.pack (record r { id = 0 })) refl (inr e) a in
    let t : str_eq c mime_type_dns_json ≡ false = rw e refl in
    let u : str_eq c mime_type_dns_message ≡ true = rw e refl in (b, rw (t, u) p, l)

-- The content type that InitDOH sets, with the draw.
draw-IsFormat :
    (host host' : UpstreamHost) (coin : Bool)
    → has_suffix_doh host.proto ≡ true
    → init_doh host ≡ ok host'
    → IsFormat (draw_content_type coin host'.request_content_type)
unfolding init_doh draw_content_type
draw-IsFormat host host' coin d e = ground arith

-- A host that InitDOH has prepared answers every request of a client, and the query of a health check,
-- with a reply or an error and no panic, whichever format the draw selects and whatever the HTTP
-- client, the response and its content type are. The request is afterwards as before, unless the
-- message cannot be packed: then its id is 0.
pub doh_exchange-Leaves :
    (libs : DohLibs) (host host' : UpstreamHost) (coin : Bool) (r : Request)
    → has_suffix_doh host.proto ≡ true
    → init_doh host ≡ ok host'
    → IsAsked r
    → (a : Option Reply × Request) × (doh_exchange libs host' coin r ≡ ret a) × Leaves libs r a
unfolding doh_exchange
doh_exchange-Leaves libs host host' coin r d e a =
    doh_by_type-Leaves libs host' r (draw_content_type coin host'.request_content_type)
      (draw-IsFormat host host' coin d e) a

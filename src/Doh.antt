-- ===== src/Doh.antt =====
-- DNS over HTTPS: dohExchange of healthcheck.go with doh-json.go and doh-ietf.go. The HTTP client, the
-- packing of messages and the JSON format are libraries, and so an argument; errors carry no text.
pub mod Ids
pub mod Dispatch
use dnsredir.Base.{
  ◌^◌, ◌%◌, ℕ, zero, suc, ◌+◌, Bool, true, false, not, ◌&&◌, ◌||◌, Option, none, some, List, [],
  ◌∷◌, ◌++◌, map, length, if◌then◌else◌, ltb, ◌==◌, Str, codes, str_eq, Run, ret, panic, no_fuel,
  ◌>>=◌,
}
use dnsredir.Domain.{split_by_byte}
use dnsredir.Config.{UpstreamHost}

pub record Question : Type 0 where
  pub name : Str
  pub qtype : ℕ
  pub qclass : ℕ

-- The parts of the request that are read. edns_do: the DO bit of its OPT record, if it has one.
-- writer_size: state.Size(), where the request has a writer.
pub record Request : Type 0 where
  pub id : ℕ
  pub response : Bool
  pub questions : List Question
  pub checking_disabled : Bool
  pub edns_do : Option Bool
  pub writer_size : Option ℕ

-- A record of a JSON answer: its name, and the rest.
pub record JsonRecord : Type 0 where
  pub name : Str
  pub rest : ℕ

pub record JsonResponse : Type 0 where
  pub answer : List JsonRecord
  pub authority : List JsonRecord
  pub additional : List JsonRecord

-- A reply: its id, and the rest.
pub record Reply : Type 0 where
  pub id : ℕ
  pub content : ℕ

pub record HttpRequest : Type 0 where
  pub is_post : Bool
  pub url : Str
  pub body : Str

-- body: what ReadAll gives, `none` for an error.
pub record HttpResponse : Type 0 where
  pub status_code : ℕ
  pub content_type : Str
  pub body : Option Str

-- type_to_string: dns.TypeToString. format_uint: strconv.FormatUint in base 10. query_escape:
-- url.QueryEscape. pack and unpack: those of dns.Msg. base64: RawURLEncoding. client: the making of
-- the HTTP request and its Do. json_decode: json.Unmarshal. json_reply: PrepareReply and Unmarshal of
-- package jsondns.
pub record DohLibs : Type 0 where
  pub type_to_string : ℕ → Option Str
  pub format_uint : ℕ → Str
  pub query_escape : Str → Str
  pub pack : Request → Option Str
  pub unpack : Str → Option Reply
  pub base64 : Str → Str
  pub client : HttpRequest → Option HttpResponse
  pub json_decode : Str → Option JsonResponse
  pub json_reply : Request → JsonResponse → ℕ → Reply

abbrev pub mime_type_doh_any : Str
mime_type_doh_any = codes "?/?"

abbrev pub mime_type_json : Str
mime_type_json = codes "application/json"

abbrev pub mime_type_dns_json : Str
mime_type_dns_json = codes "application/dns-json"

abbrev pub mime_type_dns_message : Str
mime_type_dns_message = codes "application/dns-message"

abbrev pub mime_type_dns_udp_wire_format : Str
mime_type_dns_udp_wire_format = codes "application/dns-udpwireformat"

-- UpstreamHost.Name
abbrev pub host_name : UpstreamHost → Str
host_name host = host.proto ++ codes "://" ++ host.addr

abbrev pub class_inet : ℕ
class_inet = 1

abbrev pub type_ns : ℕ
type_ns = 2

abbrev pub type_text : DohLibs → ℕ → Str
type_text libs qtype = elim (libs.type_to_string qtype) [
  | some t ↦ t
  | none ↦ libs.format_uint qtype
]

abbrev pub do_flag : Option Bool → Str
do_flag none = []
do_flag (some on) = if on then codes "&do=1" else []

-- The request of jsonDnsExchange, or none for one of its errors.
unfoldable pub json_request :
    DohLibs → UpstreamHost → Str → Request → List Question → Option HttpRequest
json_request libs host content_type r (q ∷ []) =
    if r.response
    then none
    else if not (q.qclass == class_inet)
    then none
    else some (record {
      is_post = false;
      url =
          host_name host
          ++ codes "?ct="
          ++ content_type
          ++ codes "&name="
          ++ libs.query_escape q.name
          ++ codes "&type="
          ++ libs.query_escape (type_text libs q.qtype)
          ++ (if r.checking_disabled then codes "&cd=1" else [])
          ++ do_flag r.edns_do;
      body = [];
    })
json_request libs host content_type r _ = none

-- The request of ietfDnsExchange by the packed message.
unfoldable pub wire_request : DohLibs → UpstreamHost → Str → Str → HttpRequest
wire_request libs host content_type bytes =
    let url =
      host_name host ++ codes "?ct=" ++ content_type ++ codes "&dns=" ++ libs.base64 bytes in
    if ltb (length url) 2048
    then record { is_post = false; url = url; body = [] }
    else record { is_post = true; url = url; body = bytes }

-- ietfDnsExchange up to the sending: the message is packed under the id 0, and the id is put back
-- unless the packing fails.
abbrev pub packed :
    DohLibs → UpstreamHost → Str → Request → Option Str → Option HttpRequest × Request
packed libs host content_type r none = (none, record r { id = 0 })
packed libs host content_type r (some bytes) = (some (wire_request libs host content_type bytes), r)

unfoldable pub ietf_request : DohLibs → UpstreamHost → Str → Request → Option HttpRequest × Request
unfolding wire_request
ietf_request libs host content_type r =
    packed libs host content_type r (libs.pack (record r { id = 0 }))

-- fixEmptyNames: the additional section stays as it is.
abbrev pub fix_name : JsonRecord → JsonRecord
fix_name rr = if length rr.name == 0 then record rr { name = codes "." } else rr

unfoldable pub fix_empty_names : JsonResponse → JsonResponse
fix_empty_names resp = record resp {
  answer = map fix_name resp.answer;
  authority = map fix_name resp.authority;
}

-- The datagram size of the reply; a request without a writer is the health check's.
unfoldable pub reply_size : Option ℕ → List Question → Run ℕ
reply_size (some n) questions = ret (if ltb n 512 then 512 else n)
reply_size none [] = panic
reply_size none (q ∷ questions) =
    if not (str_eq q.name (codes ".")) || not (q.qtype == type_ns) then panic else ret 512

-- The status that both parsers refuse.
abbrev pub bad_status : HttpResponse → Str → Str → Bool
bad_status resp content_type requested =
    not (resp.status_code == 200) && not (str_eq content_type requested)

abbrev pub json_body : DohLibs → Option Str → Option JsonResponse
json_body libs none = none
json_body libs (some body) = libs.json_decode body

-- The end of jsonDnsParseResponse; the size of the reply is a uint16.
abbrev pub json_finish : DohLibs → Request → Option JsonResponse → Run (Option Reply)
json_finish libs r none = ret none
json_finish libs r (some resp) = do
  size ← reply_size r.writer_size r.questions
  ret (some (libs.json_reply r (fix_empty_names resp) (size % 2 ^ 16)))

unfoldable pub json_parse : DohLibs → Request → HttpResponse → Str → Str → Run (Option Reply)
unfolding fix_empty_names reply_size
json_parse libs r resp content_type requested =
    if bad_status resp content_type requested
    then ret none
    else json_finish libs r (json_body libs resp.body)

abbrev pub wire_body : DohLibs → Option Str → Option Reply
wire_body libs none = none
wire_body libs (some body) = libs.unpack body

abbrev pub wire_finish : Request → Option Reply → Option Reply
wire_finish r none = none
wire_finish r (some reply) = some (if reply.id == 0 then record reply { id = r.id } else reply)

unfoldable pub wire_parse : DohLibs → Request → HttpResponse → Str → Str → Run (Option Reply)
wire_parse libs r resp content_type requested =
    if bad_status resp content_type requested
    then ret none
    else ret (wire_finish r (wire_body libs resp.body))

-- The switch on the content type of the response.
unfoldable pub parse_response : DohLibs → Request → HttpResponse → Str → Run (Option Reply)
unfolding json_parse wire_parse
parse_response libs r resp requested =
    let content_type = (split_by_byte resp.content_type b';').0 in
    if str_eq content_type mime_type_json || str_eq content_type mime_type_dns_json
    then json_parse libs r resp content_type requested
    else if str_eq content_type mime_type_dns_message
        || str_eq content_type mime_type_dns_udp_wire_format
    then wire_parse libs r resp content_type requested
    else if str_eq requested mime_type_dns_json
    then json_parse libs r resp content_type requested
    else if str_eq requested mime_type_dns_message
    then wire_parse libs r resp content_type requested
    else panic

-- A host of both kinds draws one.
unfoldable pub draw_content_type : Bool → Str → Str
draw_content_type coin requested =
    if str_eq requested mime_type_doh_any
    then (if coin then mime_type_dns_json else mime_type_dns_message)
    else requested

abbrev pub on_answer : DohLibs → Request → Str → Option HttpResponse → Run (Option Reply)
on_answer libs r requested none = ret none
on_answer libs r requested (some resp) = parse_response libs r resp requested

unfoldable pub send_http : DohLibs → Request → Str → Option HttpRequest → Run (Option Reply)
unfolding parse_response
send_http libs r requested none = ret none
send_http libs r requested (some req) = on_answer libs r requested (libs.client req)

-- dohExchange by the drawn content type: the reply or an error, and the request behind it.
unfoldable pub doh_by_type : DohLibs → UpstreamHost → Request → Str → Run (Option Reply × Request)
unfolding json_request ietf_request send_http
doh_by_type libs host r requested =
    if str_eq requested mime_type_dns_json
    then (do
      reply ← send_http libs r requested (json_request libs host requested r r.questions)
      ret (reply, r))
    else if str_eq requested mime_type_dns_message
    then (do
      reply ←
          send_http libs (ietf_request libs host requested r).1 requested
            (ietf_request libs host requested r).0
      ret (reply, (ietf_request libs host requested r).1))
    else panic

unfoldable pub doh_exchange : DohLibs → UpstreamHost → Bool → Request → Run (Option Reply × Request)
unfolding doh_by_type draw_content_type
doh_exchange libs host coin r =
    doh_by_type libs host r (draw_content_type coin host.request_content_type)

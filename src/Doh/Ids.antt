-- ===== src/Doh/Ids.antt =====
-- What the id of a request does in a DNS over HTTPS exchange.
use dnsredir.Base.{ℕ, some, List, [], ◌∷◌, Str, ◌≡◌, refl}
use dnsredir.Config.{UpstreamHost}
use dnsredir.Doh.{Question, Request, DohLibs, json_request, ietf_request}

json_request-id :
    (libs : DohLibs) (host : UpstreamHost) (content_type : Str) (r : Request) (i : ℕ)
    (qs : List Question)
    → json_request libs host content_type (record r { id = i }) qs
      ≡ json_request libs host content_type r qs
unfolding json_request
json_request-id libs host content_type r i [] = refl
json_request-id libs host content_type r i (q ∷ []) = refl
json_request-id libs host content_type r i (q ∷ p ∷ qs) = refl

-- What is sent over HTTPS does not depend on the id of the request, so that caches on the way may
-- answer it, in either format; and where the message can be packed, the id is afterwards as before.
pub http_request-id :
    (libs : DohLibs) (host : UpstreamHost) (content_type : Str) (r : Request) (i : ℕ) (bytes : Str)
    → libs.pack (record r { id = 0 }) ≡ some bytes
    → (json_request libs host content_type (record r { id = i }) r.questions
        ≡ json_request libs host content_type r r.questions)
      × ((ietf_request libs host content_type (record r { id = i })).0
          ≡ (ietf_request libs host content_type r).0)
      × ((ietf_request libs host content_type (record r { id = i })).1 ≡ record r { id = i })
http_request-id libs host content_type r i bytes p = (
  json_request-id libs host content_type r i r.questions,
  unfold ietf_request in rw p refl,
  unfold ietf_request in rw p refl,
)

-- ===== src/UrlContent/Hops.antt =====
-- getUrlContent follows the URLs that servers name in place of the content, however many there are.
use dnsredir.Base.{
  ◌↔◌, ℕ, zero, suc, ◌<◌, Bool, true, false, ◌||◌, Option, none, some, List, [], ◌∷◌, ◌++◌, length,
  Str, codes, str_eq, contains_str, ret, no_fuel, ◌≡◌, refl, sym, ap, ◌∙◌, arith, ◌==◌,
}
use dnsredir.UrlContent.{
  UrlResponse, Web, is_content_type, fix_url, Verdict, ends, goes_to, judge, get_url_content,
}

-- No content type is asked for, or the response's is it, or has it in front of a semicolon.
abbrev pub accepts : Str → Str → Bool
accepts content_type t =
    length content_type == 0
    || (str_eq t content_type || contains_str t (content_type ++ codes ";"))

-- The server of the URL answers 200 with an accepted type and with this content.
abbrev pub IsServed : Web → Str → Str → Str → Type 0
IsServed web content_type url content =
    (resp : UrlResponse) × (web.get url ≡ some resp)
    × (resp.status_code ≡ 200)
    × (accepts content_type resp.content_type ≡ true)
    × (resp.body ≡ some content)

-- The server of the URL answers 200 with another type and names the next URL in Location.
abbrev pub IsHop : Web → Str → Str → Str → Type 0
IsHop web content_type url next =
    (resp : UrlResponse) × (web.get url ≡ some resp)
    × (resp.status_code ≡ 200)
    × (accepts content_type resp.content_type ≡ false)
    × (0 < length resp.location)
    × (web.parses url ≡ true)
    × (resp.location ≡ next)

-- The URLs lead from one to the next, the first to the last.
abbrev pub Leads : Web → Str → Str → List Str → Str → Type 0
Leads web content_type url [] last = url ≡ last
Leads web content_type url (next ∷ urls) last =
    IsHop web content_type url next × Leads web content_type next urls last

verdict : Web → Str → Str → Verdict
verdict web content_type url = judge web content_type url (web.get url)

IsServed-verdict :
    (web : Web) (content_type url content : Str)
    → IsServed web content_type url content
    → verdict web content_type url ≡ ends (some content)
unfolding verdict judge is_content_type
IsServed-verdict web content_type url content (resp, g, s, a, b) =
    rw (g, judge) (ground (arith, s, a, b))

IsHop-verdict :
    (web : Web) (content_type url next : Str)
    → IsHop web content_type url next
    → verdict web content_type url ≡ goes_to next
unfolding verdict judge is_content_type fix_url
IsHop-verdict web content_type url next (resp, g, s, a, l, p, e) =
    rw (g, judge) (ground (arith, s, a, l, p, e))

verdict-IsServed :
    (web : Web) (content_type url content : Str)
    → verdict web content_type url ≡ ends (some content)
    → IsServed web content_type url content
unfolding verdict judge is_content_type fix_url
verdict-IsServed web content_type url content e = by_response (web.get url) refl e
  where
    by_response :
        (o : Option UrlResponse)
        → web.get url ≡ o
        → judge web content_type url o ≡ ends (some content)
        → IsServed web content_type url content
    by_response none g q = absurd (ground arith)
    by_response (some resp) g q = (resp, g, ground arith, ground arith, ground arith)

verdict-IsHop :
    (web : Web) (content_type url next : Str)
    → verdict web content_type url ≡ goes_to next
    → IsHop web content_type url next
unfolding verdict judge is_content_type fix_url
verdict-IsHop web content_type url next e = by_response (web.get url) refl e
  where
    by_response :
        (o : Option UrlResponse)
        → web.get url ≡ o
        → judge web content_type url o ≡ goes_to next
        → IsHop web content_type url next
    by_response none g q = absurd (ground arith)
    by_response (some resp) g q =
        (resp, g, ground arith, ground arith, ground arith, ground arith, ground arith)

-- One round of the call, by what becomes of the response.
by_verdict :
    (fuel : ℕ) (web : Web) (content_type url : Str) (v : Verdict)
    → verdict web content_type url ≡ v
    → get_url_content (suc fuel) web content_type url ≡ elim v [
      | ends content ↦ ret content
      | goes_to next ↦ get_url_content fuel web content_type next
    ]
unfolding get_url_content verdict
by_verdict fuel web content_type url v e = rw (get_url_content, e) refl

Leads-content :
    (fuel : ℕ) (web : Web) (content_type url : Str) (urls : List Str) (last content : Str)
    → Leads web content_type url urls last
    → IsServed web content_type last content
    → length urls < fuel
    → get_url_content fuel web content_type url ≡ ret (some content)
Leads-content zero web content_type url urls last content l s h = absurd (omega arith)
Leads-content (suc fuel) web content_type url [] last content l s h = rw l (
    by_verdict fuel web content_type last (ends (some content))
      (IsServed-verdict web content_type last content s))
Leads-content (suc fuel) web content_type url (next ∷ urls) last content (hop, l) s h =
    by_verdict fuel web content_type url (goes_to next)
      (IsHop-verdict web content_type url next hop)
    ∙ Leads-content fuel web content_type next urls last content l s (omega arith)

content-Leads :
    (fuel : ℕ) (web : Web) (content_type url content : Str)
    → get_url_content fuel web content_type url ≡ ret (some content)
    → (urls : List Str) × (last : Str) × (length urls < fuel)
      × Leads web content_type url urls last
      × IsServed web content_type last content
content-Leads zero web content_type url content e = absurd (unfold get_url_content in ground arith)
content-Leads (suc fuel) web content_type url content e =
    by_case (λ next. content-Leads fuel web content_type next content)
      (verdict web content_type url) refl
  where
    by_case :
        ((next : Str)
          → get_url_content fuel web content_type next ≡ ret (some content)
          → (urls : List Str) × (last : Str) × (length urls < fuel)
            × Leads web content_type next urls last
            × IsServed web content_type last content)
        → (v : Verdict) → verdict web content_type url ≡ v
        → (urls : List Str) × (last : Str) × (length urls < suc fuel)
          × Leads web content_type url urls last
          × IsServed web content_type last content
    by_case ih (ends o) v =
        let q : ret o ≡ ret (some content) =
          sym (by_verdict fuel web content_type url (ends o) v) ∙ e in
        let p : o ≡ some content = ground arith in
        ([], url, omega arith, refl, verdict-IsServed web content_type url content (v ∙ ap ends p))
    by_case ih (goes_to next) v =
        let (urls, last, l, m, s) =
          ih next (sym (by_verdict fuel web content_type url (goes_to next) v) ∙ e) in
        (next ∷ urls, last, omega arith, (verdict-IsHop web content_type url next v, m), s)

-- Within a bound of requests, getUrlContent returns a content exactly when a chain of fewer URLs leads there: each
-- server but the last answers 200 with a type that is not the wanted one and names the next URL in a
-- Location that is not empty, where the URL that was asked for parses; and the last answers 200 with
-- the wanted type and this content.
pub get_url_content_iff :
    (fuel : ℕ) (web : Web) (content_type url content : Str)
    → (get_url_content fuel web content_type url ≡ ret (some content)) ↔ (
        (urls : List Str) × (last : Str) × (length urls < fuel)
        × Leads web content_type url urls last
        × IsServed web content_type last content)
get_url_content_iff fuel web content_type url content = (
  content-Leads fuel web content_type url content,
  λ chain.
      let (urls, last, h, l, s) = chain in
      Leads-content fuel web content_type url urls last content l s h,
)

-- Where the URLs of a set lead to one another alone, as in a loop, the call never returns: no fuel is
-- enough.
pub get_url_content-loops :
    (web : Web) (content_type : Str) (P : Str → Type 0)
    → ((url : Str) → P url → (next : Str) × IsHop web content_type url next × P next)
    → (fuel : ℕ) (url : Str) → P url
    → get_url_content fuel web content_type url ≡ no_fuel
get_url_content-loops web content_type P closed zero url p = unfold get_url_content in refl
get_url_content-loops web content_type P closed (suc fuel) url p =
    let (next, hop, q) = closed url p in
    by_verdict fuel web content_type url (goes_to next)
      (IsHop-verdict web content_type url next hop)
    ∙ get_url_content-loops web content_type P closed fuel next q

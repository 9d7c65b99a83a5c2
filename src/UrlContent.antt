-- ===== src/UrlContent.antt =====
-- isContentType, fixUrl and getUrlContent of utils.go. The HTTP client with its resolver is an argument.
pub mod Hops
use dnsredir.Base.{
  ℕ, zero, suc, Bool, true, false, not, ◌&&◌, ◌||◌, Option, none, some, List, [], ◌∷◌, ◌++◌, length,
  if◌then◌else◌, ◌==◌, Str, codes, str_eq, contains_str, Run, ret, no_fuel,
}

-- A response: the header fields that are read, with the empty text for a missing one, and what ReadAll
-- gives for the body.
pub record UrlResponse : Type 0 where
  pub status_code : ℕ
  pub content_type : Str
  pub location : Str
  pub body : Option Str

-- get: NewRequest and Do, `none` for an error. parses: url.Parse gives no error.
pub record Web : Type 0 where
  pub get : Str → Option UrlResponse
  pub parses : Str → Bool

unfoldable pub is_content_type : Str → Str → Bool
is_content_type content_type t = str_eq t content_type || contains_str t (content_type ++ codes ";")

unfoldable pub fix_url : Web → Str → Str → Option Str
fix_url web the_url location =
    if not (length location == 0)
    then (if web.parses the_url then some location else none)
    else none

-- What becomes of a response: an end, with the content or an error, or another URL.
pub data Verdict : Type 0 where
  ends : Option Str → Verdict
  goes_to : Str → Verdict

abbrev pub fixed : Option Str → Verdict
fixed none = ends none
fixed (some url) = goes_to url

unfoldable pub judge : Web → Str → Str → Option UrlResponse → Verdict
unfolding is_content_type fix_url
judge web content_type the_url none = ends none
judge web content_type the_url (some resp) =
    if not (resp.status_code == 200)
    then ends none
    else if not (length content_type == 0) && not (is_content_type content_type resp.content_type)
    then fixed (fix_url web the_url resp.location)
    else ends resp.body

-- The function calls itself on the other URL with no bound, so the model takes fuel.
unfoldable pub get_url_content : ℕ → Web → Str → Str → Run (Option Str)
unfolding judge
get_url_content zero web content_type the_url = no_fuel
get_url_content (suc fuel) web content_type the_url =
    elim (judge web content_type the_url (web.get the_url)) [
      | ends content ↦ ret content
      | goes_to url ↦ get_url_content fuel web content_type url
    ]

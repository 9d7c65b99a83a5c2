-- ===== src/Config/PlainHttp.antt =====
-- newReloadableUpstream of upstream.go at the nil item that NewNameItemsWithForms of namelist.go leaves for a
-- plain HTTP URL.
use dnsredir.Base.{
  true, false, not, ◌&&◌, inl, inr, Option, none, some, List, [], ◌∷◌, any, length, ◌==◌, Str,
  codes, str_eq, str_eq_sound, index, ◌≡◌, refl, ap, ◌∙◌, arith, Bool-cases,
}
use dnsredir.Base.Result.{ok, crash, ◌>>=◌, err_if, of_option, ok-injective, ok_of_bind}
use dnsredir.NameList.{NameItem, ItemType, new_items}
use dnsredir.NameList.Lookup.{HasPlainHttp, is_nil, new_items-is_nil}
use dnsredir.Config.{SetupLibs, Upstream, UpstreamHost, initial}
use dnsredir.Config.Block.{parse_blocks}
use dnsredir.Config.Finish.{
  has_scheme, parse_from, finish_hosts, check_inline, item_types, settle, settle_reloads, finish,
  new_upstream,
}
use dnsredir.Config.Made.{is_root, parse_from-is_root}
use dnsredir.Config.Sets.{parse_blocks-HasFiled}

item_types-is_nil :
    (items : List (Option NameItem)) → any is_nil items ≡ true → item_types items ≡ crash
unfolding item_types
item_types-is_nil [] h = absurd (ground arith)
item_types-is_nil (none ∷ items) h = refl
item_types-is_nil (some item ∷ items) h =
    let ih = item_types-is_nil items (ground arith) in by_type item.which_type refl ih
  where
    by_type :
        (t : ItemType)
        → item.which_type ≡ t
        → item_types items ≡ crash
        → item_types (some item ∷ items) ≡ crash
    by_type ItemType.path_type e ih = rw (e, ih) refl
    by_type ItemType.url_type e ih = rw (e, ih) refl
    by_type ItemType.last e ih = rw (e) refl

HasPlainHttp-is_root :
    (lower : Str → Str) (forms : List Str) → HasPlainHttp lower forms → is_root forms ≡ false
HasPlainHttp-is_root lower [] h = absurd h
HasPlainHttp-is_root lower (from ∷ second ∷ forms) h = refl
HasPlainHttp-is_root lower (from ∷ []) (inr h) = absurd h
HasPlainHttp-is_root lower (from ∷ []) (inl (i, e, h)) =
    elim (Bool-cases (str_eq from (codes "."))) [
      | inl y ↦
          absurd (not_there (ap (λ s. index s (codes "://")) (str_eq_sound from (codes ".") y)))
      | inr n ↦ n
    ]
  where
    not_there : index from (codes "://") ≡ none → ⊥
    not_there q = ground arith

listed_items :
    (libs : SetupLibs) (u v : Upstream) (forms : List Str)
    → (err_if (any (λ from. not (has_scheme from) && libs.stat_error from) forms) >>= λ _.
        of_option (new_items libs.names.unicode_lower forms) >>= λ items.
        ok (record u { items = items }))
      ≡ ok v
    → new_items libs.names.unicode_lower forms ≡ some v.items
listed_items libs u v forms e =
    let (x, p, q) =
      ok_of_bind (err_if (any (λ from. not (has_scheme from) && libs.stat_error from) forms))
        (λ _. of_option (new_items libs.names.unicode_lower forms) >>= λ items.
          ok (record u { items = items }))
        v e in
    by_items (new_items libs.names.unicode_lower forms) refl q
  where
    by_items :
        (o : Option (List (Option NameItem)))
        → new_items libs.names.unicode_lower forms ≡ o
        → (of_option o >>= λ items. ok (record u { items = items })) ≡ ok v
        → new_items libs.names.unicode_lower forms ≡ some v.items
    by_items none p q = absurd (ground arith)
    by_items (some items) p q =
        let t : record u { items = items } ≡ v = ok-injective q in p ∙ ap (λ w. some (w.items)) t

parse_from-items :
    (libs : SetupLibs) (u v : Upstream) (forms : List Str)
    → parse_from libs u forms ≡ ok v
    → is_root forms ≡ false
    → new_items libs.names.unicode_lower forms ≡ some v.items
parse_from-items libs u v [] e n = absurd (unfold parse_from in ground arith)
parse_from-items libs u v (from ∷ []) e n =
    listed_items libs u v (from ∷ []) (unfold parse_from in ground arith)
parse_from-items libs u v (from ∷ second ∷ forms) e n =
    listed_items libs u v (from ∷ second ∷ forms) (unfold parse_from in ground arith)

-- If a form of FROM is a plain HTTP URL, the other forms are not refused, the block is read without an error,
-- it names a host, the hosts are finished without an error and no INLINE name is one of except, then
-- newReloadableUpstream panics.
pub plain_http_panics :
    (libs : SetupLibs) (forms : List Str) (lines : List (Str × List Str)) (u b : Upstream)
    (hosts : List UpstreamHost)
    → HasPlainHttp libs.names.unicode_lower forms
    → parse_from libs initial forms ≡ ok u
    → parse_blocks libs u lines ≡ ok b
    → (length b.hosts == 0) ≡ false
    → finish_hosts libs b b.hosts ≡ ok hosts
    → check_inline libs.names b.inline b.ignored ≡ ok tt
    → new_upstream libs forms lines ≡ crash
unfolding new_upstream finish settle_reloads settle
plain_http_panics libs forms lines u b hosts h p r some_host hs inline =
    let n = HasPlainHttp-is_root libs.names.unicode_lower forms h in
    let (root, fresh, inl0, ign0) = parse_from-is_root libs initial u forms p refl refl in
    let (m, i, inl1, ign1) = parse_blocks-HasFiled libs u lines b r in
    let any_b : b.match_any ≡ false = m ∙ root ∙ n in
    let nil : any is_nil b.items ≡ true =
      ap (any is_nil) i
      ∙ new_items-is_nil libs.names.unicode_lower forms u.items
          (parse_from-items libs initial u forms p n) h in
    let types : item_types b.items ≡ crash = item_types-is_nil b.items nil in
    rw (p, ◌>>=◌, r, ◌>>=◌, some_host, ◌>>=◌, hs, ◌>>=◌, inline, ◌>>=◌, any_b, types) refl

-- ===== src/Config/Made.antt =====
-- What newReloadableUpstream gives, in terms of the arguments of FROM and the lines of the block.
use dnsredir.Base.{
  Bool, true, false, not, ◌&&◌, inl, inr, Option, none, some, List, [], ◌∷◌, any, All, length, ◌==◌,
  Str, codes, str_eq, ◌≡◌, refl, sym, ap, ◌∙◌, arith, Bool-cases, if◌then◌else◌,
}
use mathlib.Core.Path.{subst}
use dnsredir.Base.Result.{ok, ◌>>=◌, err_if, of_option, ok-injective, ok_of_bind}
use dnsredir.Externals.{NameLibs}
use dnsredir.DomainSet.{DomainSet, empty, add_name}
use dnsredir.DomainSet.Laws.{has}
use dnsredir.DomainSet.Held.{IsHeld}
use dnsredir.NameFile.Meaning.{WellBucketed-empty, has-empty}
use dnsredir.NameList.{NameItem, form_item, new_items}
use dnsredir.Config.{SetupLibs, Upstream, initial}
use dnsredir.Config.Block.{parse_blocks}
use dnsredir.Config.Finish.{
  has_scheme, parse_from, finish_hosts, check_inline, item_types, settle, settle_reloads, finish,
  new_upstream,
}
use dnsredir.Config.Spares.{Spares, bind-Spares}
use dnsredir.Config.Gains.{HasGot}
use dnsredir.Config.Sets.{inline_texts, except_texts, parse_blocks-HasFiled}

-- The FROM that stands for all names.
abbrev pub is_root : List Str → Bool
is_root (from ∷ []) = str_eq from (codes ".")
is_root _ = false

-- The item of a form has no names yet; a plain HTTP URL has left a nil.
abbrev pub IsFresh : Option NameItem → Type 0
IsFresh none = Unit
IsFresh (some item) = item.names ≡ empty

form_item-IsFresh :
    (lower : Str → Str) (from : Str) (o : Option NameItem)
    → form_item lower from ≡ some o
    → IsFresh o
unfolding form_item
form_item-IsFresh lower from none e = tt
form_item-IsFresh lower from (some item) e = ground arith

pub new_items-IsFresh :
    (lower : Str → Str) (forms : List Str) (items : List (Option NameItem))
    → new_items lower forms ≡ some items
    → All IsFresh items
unfolding new_items
new_items-IsFresh lower [] items e = ground arith
new_items-IsFresh lower (from ∷ forms) items e =
    by_parts (new_items-IsFresh lower forms) (form_item lower from) (new_items lower forms) refl
      refl e
  where
    by_parts :
        ((rest : List (Option NameItem)) → new_items lower forms ≡ some rest → All IsFresh rest)
        → (o : Option (Option NameItem)) (r : Option (List (Option NameItem)))
        → form_item lower from ≡ o
        → new_items lower forms ≡ r
        → (elim o [
          | none ↦ none
          | some item ↦ elim r [ none ↦ none | some items ↦ some (item ∷ items) ]
        ])
          ≡ some items
        → All IsFresh items
    by_parts ih none r p q h = absurd (ground arith)
    by_parts ih (some item) none p q h = absurd (ground arith)
    by_parts ih (some item) (some rest) p q h =
        let t : item ∷ rest ≡ items = ground arith in
        subst (All IsFresh) t (form_item-IsFresh lower from item p, ih rest q)

settle-Spares : (u : Upstream) (b : Bool) → Spares u (settle u b)
unfolding settle
settle-Spares u true u' e = ground arith
settle-Spares u false u' e =
    bind-Spares (item_types u.items)
      (λ found. ok (record u {
        path_reload = if found.0 then u.path_reload else 0;
        url_reload = if found.1 then u.url_reload else 0;
      }))
      u (λ found v q. ground arith) u' e

finish-Spares : (libs : SetupLibs) (u : Upstream) → Spares u (finish libs u)
finish-Spares libs u =
    unfold finish in
    bind-Spares (err_if (length u.hosts == 0))
      (λ _. finish_hosts libs u u.hosts >>= λ hosts.
        check_inline libs.names u.inline u.ignored >>= λ _.
        settle_reloads (record u { hosts = hosts }))
      u
      (λ _.
        bind-Spares (finish_hosts libs u u.hosts)
          (λ hosts. check_inline libs.names u.inline u.ignored >>= λ _.
            settle_reloads (record u { hosts = hosts }))
          u
          (λ hosts.
            bind-Spares (check_inline libs.names u.inline u.ignored)
              (λ _. settle_reloads (record u { hosts = hosts })) u
              (λ _.
                unfold settle_reloads in settle-Spares (record u { hosts = hosts }) u.match_any)))

-- What parseFrom does with forms that are not the root alone.
listed :
    (libs : SetupLibs) (u v : Upstream) (forms : List Str)
    → (err_if (any (λ from. not (has_scheme from) && libs.stat_error from) forms) >>= λ _.
        of_option (new_items libs.names.unicode_lower forms) >>= λ items.
        ok (record u { items = items }))
      ≡ ok v
    → (v.match_any ≡ u.match_any)
      × All IsFresh v.items
      × (v.inline ≡ u.inline)
      × (v.ignored ≡ u.ignored)
listed libs u v forms e =
    let (x, p, q) =
      ok_of_bind (err_if (any (λ from. not (has_scheme from) && libs.stat_error from) forms))
        (λ _. of_option (new_items libs.names.unicode_lower forms) >>= λ items.
          ok (record u { items = items }))
        v e in
    by_items (new_items libs.names.unicode_lower forms) refl q
  where
    by_items :
        (o : Option (List (Option NameItem)))
        → new_items libs.names.unicode_lower forms ≡ o
        → (of_option o >>= λ items. ok (record u { items = items })) ≡ ok v
        → (v.match_any ≡ u.match_any)
          × All IsFresh v.items
          × (v.inline ≡ u.inline)
          × (v.ignored ≡ u.ignored)
    by_items none p q = absurd (ground arith)
    by_items (some items) p q =
        let t : record u { items = items } ≡ v = ok-injective q in
        rw (← t) (refl, new_items-IsFresh libs.names.unicode_lower forms items p, refl, refl)

pub parse_from-is_root :
    (libs : SetupLibs) (u v : Upstream) (forms : List Str)
    → parse_from libs u forms ≡ ok v
    → u.match_any ≡ false
    → u.items ≡ []
    → (v.match_any ≡ is_root forms)
      × All IsFresh v.items
      × (v.inline ≡ u.inline)
      × (v.ignored ≡ u.ignored)
parse_from-is_root libs u v [] e m i = absurd (unfold parse_from in ground arith)
parse_from-is_root libs u v (from ∷ []) e m i = elim (Bool-cases (str_eq from (codes "."))) [
  | inl y ↦
      let t : record u { match_any = true } ≡ v = unfold parse_from in ground arith in
      rw (← t) (sym y, rw i tt, refl, refl)
  | inr n ↦
      let (a, b, c, d) = listed libs u v (from ∷ []) (unfold parse_from in ground arith) in
      (a ∙ m ∙ sym n, b, c, d)
]
parse_from-is_root libs u v (from ∷ second ∷ forms) e m i =
    let (a, b, c, d) =
      listed libs u v (from ∷ second ∷ forms) (unfold parse_from in ground arith) in
    (a ∙ m, b, c, d)

-- What an upstream is made of: whether it is for all names, items without names, and the names of the
-- INLINE lines and of the excepts, no others.
pub record IsMade (libs : NameLibs) (forms : List Str) (lines : List (Str × List Str))
    (u : Upstream) : Type 0 where
  pub root : u.match_any ≡ is_root forms
  pub fresh : All IsFresh u.items
  pub inline : IsHeld (add_name libs) u.inline (inline_texts lines)
  pub ignored : IsHeld (add_name libs) u.ignored (except_texts lines)

pub new_upstream-IsMade :
    (libs : SetupLibs) (forms : List Str) (lines : List (Str × List Str)) (v : Upstream)
    → new_upstream libs forms lines ≡ ok v
    → IsMade libs.names forms lines v
new_upstream-IsMade libs forms lines v e =
    let (a, p, q) =
      ok_of_bind (parse_from libs initial forms) (λ u. parse_blocks libs u lines >>= finish libs) v
        (unfold new_upstream in e) in
    let (b, r, s) = ok_of_bind (parse_blocks libs a lines) (finish libs) v q in
    let (root, fresh, inl0, ign0) = parse_from-is_root libs initial a forms p refl refl in
    let (m1, i1, inl1, ign1) = parse_blocks-HasFiled libs a lines b r in
    let (m2, i2, inl2, ign2) = finish-Spares libs b v s in
    record {
      root = m2 ∙ m1 ∙ root;
      fresh = rw i2 (rw i1 fresh);
      inline = rw inl2 (held a.inline b.inline (inline_texts lines) inl0 inl1);
      ignored = rw ign2 (held a.ignored b.ignored (except_texts lines) ign0 ign1);
    }
  where
    held :
        (d d' : DomainSet) (texts : List Str)
        → d ≡ empty
        → HasGot libs.names texts d d'
        → IsHeld (add_name libs.names) d' texts
    held d d' texts e (w, h) = (
      w (rw e WellBucketed-empty),
      λ n ne. ground (arith, h n ne, has-empty n, ap (λ d. has d n) e),
    )

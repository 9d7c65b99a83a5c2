-- ===== src/Config/Ready.antt =====
-- What an upstream that newReloadableUpstream accepts is like.
use mathlib.Core.Path.{subst}
use dnsredir.Base.{
  str_eq, ◌&&◌, zero, suc, ℕ, Bool, true, false, not, Option, none, some, List, [], Str, ◌≡◌, ◌≢◌,
  refl, sym, ap, ◌∙◌, arith, All, length, any, Run, ret, if◌then◌else◌, ◌==◌, codes,
}
use dnsredir.Base.Result.{
  ok_of_bind, ok-injective, Result, ok, err, crash, stuck, ◌>>=◌, ◌>>◌, err_if, of_option,
}
use dnsredir.Externals.{NameLibs}
use dnsredir.StringSet.{contains}
use dnsredir.DomainSet.{DomainSet, bucket, len, for_each_domain}
use dnsredir.DomainSet.Laws.{for_each_domain-none}
use dnsredir.DomainSet
use dnsredir.NameList.{NameItem}
use dnsredir.Config.{SetupLibs, Upstream, initial}
use dnsredir.Config.Block.{parse_blocks}
use dnsredir.NameList.{new_items}
use dnsredir.Config.Finish.{
  has_scheme, settle, walk_result, Conflict, parse_from, finish_hosts, conflict_of, check_inline,
  item_types, settle_reloads, finish, new_upstream,
}
use dnsredir.Config.Inherits.{Inherits, finish_hosts-Inherits}
use dnsredir.Config.Bounds.{IsBounded, parse_blocks-IsBounded}

err_if-false : (t : Bool) (u : Unit {0}) → err_if t ≡ ok u → t ≡ false
err_if-false t u e = ground arith

-- The reloads are off where every request matches, and no INLINE name is then there.
pub record IsSettled (u v : Upstream) : Type 0 where
  pub same_hosts : v.hosts ≡ u.hosts
  pub same_transport : v.transport ≡ u.transport
  pub same_inline : v.inline ≡ u.inline
  pub same_ignored : v.ignored ≡ u.ignored
  pub root : v.match_any ≡ true → (len v.inline ≡ 0) × (v.path_reload ≡ 0) × (v.url_reload ≡ 0)
  pub bounded : IsBounded u → IsBounded v

settle-IsSettled : (u v : Upstream) (b : Bool) → u.match_any ≡ b → settle u b ≡ ok v → IsSettled u v
settle-IsSettled u v b m e = by_flag b m e
  where
    any_root :
        u.match_any ≡ true
        → (n : ℕ) → len u.inline ≡ n
        → (err_if (not (n == 0)) >>= λ _. ok (record u { path_reload = 0; url_reload = 0 })) ≡ ok v
        → IsSettled u v
    any_root m zero p q = subst (IsSettled u) (ok-injective q) (record {
      same_hosts = refl;
      same_transport = refl;
      same_inline = refl;
      same_ignored = refl;
      root = λ r. (p, refl, refl);
      bounded = λ b. omega arith;
    })
    any_root m (suc n) p q = absurd (ground arith)

    listed :
        u.match_any ≡ false
        → (r : Result (Bool × Bool))
        → (r >>= λ found. ok (record u {
          path_reload = if found.0 then u.path_reload else 0;
          url_reload = if found.1 then u.url_reload else 0;
        }))
          ≡ ok v
        → IsSettled u v
    listed m (ok (a, b)) q = subst (IsSettled u) (ok-injective q) (record {
      same_hosts = refl;
      same_transport = refl;
      same_inline = refl;
      same_ignored = refl;
      root = λ r. absurd (ground arith);
      bounded = λ c. ground arith;
    })
    listed m err q = absurd (ground arith)
    listed m crash q = absurd (ground arith)
    listed m stuck q = absurd (ground arith)

    by_flag : (b : Bool) → u.match_any ≡ b → settle u b ≡ ok v → IsSettled u v
    by_flag true m e = any_root m (len u.inline) refl (unfold settle in e)
    by_flag false m e = listed m (item_types u.items) (unfold settle in e)

pub settle_reloads-IsSettled : (u v : Upstream) → settle_reloads u ≡ ok v → IsSettled u v
settle_reloads-IsSettled u v e = settle-IsSettled u v u.match_any refl (unfold settle_reloads in e)

-- What a loaded upstream promises: a host or more, each with the block's expiry and recursion flag; no
-- INLINE name that except holds; reloads off and no INLINE name where every request matches; and every
-- duration and count in its documented range.
pub record IsReady (names : NameLibs) (u : Upstream) : Type 0 where
  pub hosted : u.hosts ≢ []
  pub inherited : All (Inherits u) u.hosts
  pub exclusive :
      (k : ℕ) (n : Str)
      → contains (bucket k u.inline) n ≡ true
      → DomainSet.match names u.ignored n ≡ ret false
  pub root : u.match_any ≡ true → (len u.inline ≡ 0) × (u.path_reload ≡ 0) × (u.url_reload ≡ 0)
  pub bounded : IsBounded u

check_inline-exclusive :
    (names : NameLibs) (inline ignored : DomainSet) (t : Unit {0})
    → check_inline names inline ignored ≡ ok t
    → (k : ℕ) (n : Str) → contains (bucket k inline) n ≡ true
    → DomainSet.match names ignored n ≡ ret false
check_inline-exclusive names inline ignored t e k n h =
    by_walk (for_each_domain (conflict_of names ignored) inline) refl (unfold check_inline in e)
  where
    by_match :
        (r : Run Bool)
        → DomainSet.match names ignored n ≡ r
        → conflict_of names ignored n ≡ none
        → r ≡ ret false
    by_match r p q = unfold conflict_of in ground arith

    by_walk :
        (o : Option Conflict)
        → for_each_domain (conflict_of names ignored) inline ≡ o
        → walk_result o ≡ ok t
        → DomainSet.match names ignored n ≡ ret false
    by_walk none p q =
        by_match (DomainSet.match names ignored n) refl
          (for_each_domain-none (conflict_of names ignored) inline p k n h)
    by_walk (some Conflict.conflict) p q = absurd (unfold walk_result in ground arith)
    by_walk (some Conflict.panicked) p q = absurd (unfold walk_result in ground arith)
    by_walk (some Conflict.out_of_fuel) p q = absurd (unfold walk_result in ground arith)

finish-IsReady :
    (libs : SetupLibs) (u v : Upstream) → IsBounded u → finish libs u ≡ ok v → IsReady libs.names v
finish-IsReady libs u v b e =
    let (t, p, q) =
      ok_of_bind (err_if (length u.hosts == 0))
        (λ _. finish_hosts libs u u.hosts >>= λ hosts.
          check_inline libs.names u.inline u.ignored >>= λ _.
          settle_reloads (record u { hosts = hosts }))
        v (unfold finish in e) in
    let (hosts, r, s) =
      ok_of_bind (finish_hosts libs u u.hosts)
        (λ hosts. check_inline libs.names u.inline u.ignored >>= λ _.
          settle_reloads (record u { hosts = hosts }))
        v q in
    let (t', c, f) =
      ok_of_bind (check_inline libs.names u.inline u.ignored)
        (λ _. settle_reloads (record u { hosts = hosts })) v s in
    let settled = settle_reloads-IsSettled (record u { hosts = hosts }) v f in
    let (inherit, len_lem) = finish_hosts-Inherits libs u u.hosts hosts r in
    let some_host = err_if-false (length u.hosts == 0) t p in
    record {
      hosted =
          λ z. absurd (ground (arith, some_host, len_lem, ap length (sym settled.same_hosts ∙ z)));
      inherited = rw settled.same_hosts (rw settled.same_transport inherit);
      exclusive = λ k n h. rw settled.same_ignored (
          check_inline-exclusive libs.names u.inline u.ignored t' c k n
            (rw settled.same_inline at h));
      root = settled.root;
      bounded = settled.bounded (omega arith);
    }

pub initial-IsBounded : IsBounded initial
initial-IsBounded = omega arith

parse_from-IsBounded :
    (libs : SetupLibs) (u v : Upstream) (forms : List Str)
    → IsBounded u
    → parse_from libs u forms ≡ ok v
    → IsBounded v
parse_from-IsBounded libs u v forms b e =
    by_tests (length forms == 0) (length forms == 1 && any (λ from. str_eq from (codes ".")) forms)
      (any (λ from. not (has_scheme from) && libs.stat_error from) forms)
      (new_items libs.names.unicode_lower forms) (unfold parse_from in e)
  where
    by_tests :
        (none_given root bad : Bool) (o : Option (List (Option NameItem)))
        → (if none_given
            then err
            else if root
            then ok (record u { match_any = true })
            else (do err_if bad; items ← of_option o; ok (record u { items = items })))
          ≡ ok v
        → IsBounded v
    by_tests none_given root bad o q = ground arith

-- An upstream that newReloadableUpstream returns without an error has a host or more, each with the
-- block's expiry and recursion flag; no INLINE name that except holds; no INLINE name and no reload
-- if it is for all names; and every duration and count in its documented range.
pub new_upstream-IsReady :
    (libs : SetupLibs) (forms : List Str) (lines : List (Str × List Str)) (v : Upstream)
    → new_upstream libs forms lines ≡ ok v
    → IsReady libs.names v
new_upstream-IsReady libs forms lines v e =
    let (u, p, q) =
      ok_of_bind (parse_from libs initial forms) (λ u. parse_blocks libs u lines >>= finish libs) v
        (unfold new_upstream in e) in
    let (u', r, s) = ok_of_bind (parse_blocks libs u lines) (finish libs) v q in
    finish-IsReady libs u' v
      (parse_blocks-IsBounded libs u lines u' r
        (parse_from-IsBounded libs initial u forms initial-IsBounded p))
      s

-- ===== src/Config/Sets.antt =====
-- What the lines of a block make of an upstream's INLINE names and of its except names.
use dnsredir.Base.{List, [], ◌∷◌, ◌++◌, Str, ◌≡◌, refl, sym, ap, ◌∙◌, arith}
use dnsredir.Base.Result.{ok-injective, ok_of_bind, Result, ok}
use dnsredir.Externals.{NameLibs}
use dnsredir.DomainSet.{add_name}
use dnsredir.DomainSet.Laws.{insert, add_lem}
use dnsredir.Config.Gains.{HasGot, HasGot-refl, HasGot-trans, HasGot-add, add_names-HasGot}
use dnsredir.Config.Spares.{
  Spares, path_reload-Spares, url_reload-Spares, set_spray-Spares, set_policy-Spares,
  max_fails-Spares, max_retry-Spares, health_check-Spares, parse_to-Spares, expire-Spares,
  set_tls-Spares, tls_servername-Spares, parse_bootstrap-Spares, ipset_parse-Spares,
  set_no_ipv6-Spares,
}
use dnsredir.Config.{SetupLibs, Upstream, Directive, directive_of}
use dnsredir.Config.Block.{
  path_reload, url_reload, except, add_names, set_spray, set_policy, max_fails, max_retry,
  health_check, parse_to, expire, set_tls, tls_servername, parse_bootstrap, ipset_parse,
  set_no_ipv6, add_inline, parse_directive, parse_block, parse_blocks,
}

-- One set has got the names of some texts, the other those of others, and what FROM set is as before.
abbrev pub HasFiled : NameLibs → List Str → List Str → Upstream → Upstream → Type 0
HasFiled libs inline ignored u u' =
    (u'.match_any ≡ u.match_any)
    × (u'.items ≡ u.items)
    × HasGot libs inline u.inline u'.inline
    × HasGot libs ignored u.ignored u'.ignored

unfoldable pub inline_of : Str → Directive → List Str
inline_of dir Directive.inline_dir = dir ∷ []
inline_of dir _ = []

unfoldable pub except_of : List Str → Directive → List Str
except_of args Directive.except_dir = args
except_of args _ = []

-- The INLINE names of the lines.
unfoldable pub inline_texts : List (Str × List Str) → List Str
unfolding inline_of
inline_texts [] = []
inline_texts ((dir, args) ∷ lines) = inline_of dir (directive_of dir) ++ inline_texts lines

-- The names of the lines' excepts.
unfoldable pub except_texts : List (Str × List Str) → List Str
unfolding except_of
except_texts [] = []
except_texts ((dir, args) ∷ lines) = except_of args (directive_of dir) ++ except_texts lines

-- A line that touches none of this.
unfiled :
    (libs : NameLibs) (u u' : Upstream)
    → u'.match_any ≡ u.match_any
    → u'.items ≡ u.items
    → u'.inline ≡ u.inline
    → u'.ignored ≡ u.ignored
    → HasFiled libs [] [] u u'
unfiled libs u u' a b c d =
    (a, b, rw c (HasGot-refl libs u.inline), rw d (HasGot-refl libs u.ignored))

unfiled_directive :
    (libs : SetupLibs) (u u' : Upstream) (r : Result Upstream)
    → Spares u r
    → r ≡ ok u'
    → HasFiled libs.names [] [] u u'
unfiled_directive libs u u' r s e = let (a, b, c, d) = s u' e in unfiled libs.names u u' a b c d

except-HasFiled :
    (libs : SetupLibs) (u : Upstream) (args : List Str) (u' : Upstream)
    → except libs u args ≡ ok u'
    → HasFiled libs.names [] args u u'
unfolding except
except-HasFiled libs u [] u' e = absurd (ground arith)
except-HasFiled libs u (a ∷ args) u' e =
    let (d, p, q) =
      ok_of_bind (add_names libs.names u.ignored (a ∷ args)) (λ d. ok (record u { ignored = d })) u'
        e in
    let eq : record u { ignored = d } ≡ u' = ok-injective q in
    rw (← eq) (
      refl,
      refl,
      HasGot-refl libs.names u.inline,
      add_names-HasGot libs.names u.ignored (a ∷ args) d p,
    )

add_inline-HasFiled :
    (libs : SetupLibs) (u : Upstream) (dir : Str) (args : List Str) (u' : Upstream)
    → add_inline libs u dir args ≡ ok u'
    → HasFiled libs.names (dir ∷ []) [] u u'
unfolding add_inline
add_inline-HasFiled libs u dir (a ∷ args) u' e = absurd (ground arith)
add_inline-HasFiled libs u dir [] u' e =
    let d = insert (add_name libs.names dir) u.inline in
    let eq : record u { inline = d } ≡ u' = ground (arith, add_lem libs.names u.inline dir) in
    rw (← eq) (refl, refl, HasGot-add libs.names u.inline dir, HasGot-refl libs.names u.ignored)

directive-HasFiled :
    (libs : SetupLibs) (u : Upstream) (dir : Str) (args : List Str) (which : Directive)
    (u' : Upstream)
    → parse_directive libs u dir args which ≡ ok u'
    → HasFiled libs.names (inline_of dir which) (except_of args which) u u'
unfolding inline_of except_of
directive-HasFiled libs u dir args Directive.except_dir u' e =
    except-HasFiled libs u args u' (unfold parse_directive in e)
directive-HasFiled libs u dir args Directive.inline_dir u' e =
    add_inline-HasFiled libs u dir args u' (unfold parse_directive in e)
directive-HasFiled libs u dir args Directive.pf_dir u' e =
    let q : u ≡ u' = ok-injective (unfold parse_directive in e) in
    unfiled libs.names u u' (ap Upstream.match_any (sym q)) (ap Upstream.items (sym q))
      (ap Upstream.inline (sym q)) (ap Upstream.ignored (sym q))
directive-HasFiled libs u dir args Directive.path_reload_dir u' e =
    unfiled_directive libs u u' (path_reload libs u args) (path_reload-Spares libs u args)
      (unfold parse_directive in e)
directive-HasFiled libs u dir args Directive.url_reload_dir u' e =
    unfiled_directive libs u u' (url_reload libs u args) (url_reload-Spares libs u args)
      (unfold parse_directive in e)
directive-HasFiled libs u dir args Directive.spray_dir u' e =
    unfiled_directive libs u u' (set_spray u args) (set_spray-Spares u args)
      (unfold parse_directive in e)
directive-HasFiled libs u dir args Directive.policy_dir u' e =
    unfiled_directive libs u u' (set_policy u args) (set_policy-Spares u args)
      (unfold parse_directive in e)
directive-HasFiled libs u dir args Directive.max_fails_dir u' e =
    unfiled_directive libs u u' (max_fails libs u args) (max_fails-Spares libs u args)
      (unfold parse_directive in e)
directive-HasFiled libs u dir args Directive.max_retry_dir u' e =
    unfiled_directive libs u u' (max_retry libs u args) (max_retry-Spares libs u args)
      (unfold parse_directive in e)
directive-HasFiled libs u dir args Directive.health_check_dir u' e =
    unfiled_directive libs u u' (health_check libs u args) (health_check-Spares libs u args)
      (unfold parse_directive in e)
directive-HasFiled libs u dir args Directive.to_dir u' e =
    unfiled_directive libs u u' (parse_to libs u args) (parse_to-Spares libs u args)
      (unfold parse_directive in e)
directive-HasFiled libs u dir args Directive.expire_dir u' e =
    unfiled_directive libs u u' (expire libs u args) (expire-Spares libs u args)
      (unfold parse_directive in e)
directive-HasFiled libs u dir args Directive.tls_dir u' e =
    unfiled_directive libs u u' (set_tls libs u args) (set_tls-Spares libs u args)
      (unfold parse_directive in e)
directive-HasFiled libs u dir args Directive.tls_servername_dir u' e =
    unfiled_directive libs u u' (tls_servername libs u args) (tls_servername-Spares libs u args)
      (unfold parse_directive in e)
directive-HasFiled libs u dir args Directive.bootstrap_dir u' e =
    unfiled_directive libs u u' (parse_bootstrap libs u args) (parse_bootstrap-Spares libs u args)
      (unfold parse_directive in e)
directive-HasFiled libs u dir args Directive.ipset_dir u' e =
    unfiled_directive libs u u' (ipset_parse u args) (ipset_parse-Spares u args)
      (unfold parse_directive in e)
directive-HasFiled libs u dir args Directive.no_ipv6_dir u' e =
    unfiled_directive libs u u' (set_no_ipv6 u args) (set_no_ipv6-Spares u args)
      (unfold parse_directive in e)

-- A block that is accepted has put into the INLINE set the names of its INLINE lines and no others,
-- and into the except set those of its excepts; each is in its bucket; and it has left what FROM set.
pub parse_blocks-HasFiled :
    (libs : SetupLibs) (u : Upstream) (lines : List (Str × List Str)) (u' : Upstream)
    → parse_blocks libs u lines ≡ ok u'
    → HasFiled libs.names (inline_texts lines) (except_texts lines) u u'
unfolding inline_texts except_texts
parse_blocks-HasFiled libs u [] u' e =
    let q : ok u ≡ ok u' = unfold parse_blocks in e in
    let q' : u ≡ u' = ok-injective q in
    unfiled libs.names u u' (ap Upstream.match_any (sym q')) (ap Upstream.items (sym q'))
      (ap Upstream.inline (sym q')) (ap Upstream.ignored (sym q'))
parse_blocks-HasFiled libs u ((dir, args) ∷ lines) u' e =
    let (v, p, q) =
      ok_of_bind (parse_block libs u dir args) (λ v. parse_blocks libs v lines) u'
        (unfold parse_blocks in e) in
    let (a, b, c, d) =
      directive-HasFiled libs u dir args (directive_of dir) v (unfold parse_block in p) in
    let (a', b', c', d') = parse_blocks-HasFiled libs v lines u' q in
    (
      a' ∙ a,
      b' ∙ b,
      HasGot-trans libs.names (inline_of dir (directive_of dir)) (inline_texts lines) u.inline
          v.inline u'.inline c c',
      HasGot-trans libs.names (except_of args (directive_of dir)) (except_texts lines) u.ignored
          v.ignored u'.ignored d d',
    )

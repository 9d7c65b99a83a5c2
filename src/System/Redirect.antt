-- ===== src/System/Redirect.antt =====
-- Where a request goes: to the first directive whose names take it.
use dnsredir.Base.{
  Bool, true, not, ◌&&◌, ◌||◌, ◌⊎◌, inl, inr, Option, none, some, List, [], ◌∷◌, ◌++◌, any, All,
  Str, codes, ret, ◌>>=◌, ◌≡◌, ◌≢◌, refl, ◌∙◌, arith, if◌then◌else◌,
}
use dnsredir.Base.Result.{ok}
use dnsredir.Domain.Labels.{dotted, tails}
use dnsredir.Externals.{NameLibs, NameLaws, AreLabels, AreFolded}
use dnsredir.DomainSet.{DomainSet, add_name}
use dnsredir.DomainSet.Laws.{names_it}
use dnsredir.DomainSet.Search.{covers}
use dnsredir.DomainSet.Match.{dotted-ne-nil}
use dnsredir.DomainSet.Held.{IsHeld, AreClean, IsHeld-AreDomains}
use dnsredir.NameFile.Meaning.{line_name}
use dnsredir.NameList.{NameItem}
use dnsredir.NameList.Lookup.{IsSearchable, item_covers}
use dnsredir.Config.{SetupLibs, Upstream}
use dnsredir.Config.Sets.{inline_texts, except_texts}
use dnsredir.Config.Made.{is_root}
use dnsredir.Upstream.{matches}
use dnsredir.Upstream.Rules.{IsLoaded, matches_lem}
use dnsredir.Serve.{match_upstreams, match_name}
use dnsredir.System.{Block, new_upstreams, Pairs, Reach}
use dnsredir.System.Sourced.{IsSourced}
use dnsredir.System.Loaded.{Serves, reach-Serves}
use dnsredir.System.Safety.{asked, asked-dotted}

-- Some text stands for the name or for a name above it.
abbrev pub stands_above : (Str → Option Str) → List Str → List Str → Bool
stands_above name_of texts ls =
    any (λ t. any (λ line. names_it (name_of line) (dotted t)) texts) (tails ls)

-- The directive takes the name, its lists being these texts: by FROM, by a list or by an INLINE name, and
-- not by an except.
abbrev pub rule : NameLibs → Block → List (List Str) → List Str → Bool
rule libs block texts ls =
    (is_root block.forms
      || any (λ lines. stands_above (line_name libs) lines ls) texts
      || stands_above (add_name libs) (inline_texts block.lines) ls)
    && not (stands_above (add_name libs) (except_texts block.lines) ls)

-- The upstream of the first directive that takes the name.
abbrev pub first_taking :
    NameLibs → List Block → List (List (List Str)) → List Upstream → List Str → Option Upstream
first_taking libs (block ∷ blocks) (texts ∷ textss) (u ∷ ups) ls =
    let rest = first_taking libs blocks textss ups ls in
    if rule libs block texts ls then some u else rest
first_taking libs _ _ _ ls = none

-- The names of a directive's INLINE lines and of its excepts are domain names.
abbrev pub IsCleanBlock : NameLibs → Block → Type 0
IsCleanBlock libs block =
    AreClean (add_name libs) (inline_texts block.lines)
    × AreClean (add_name libs) (except_texts block.lines)

tails_covers :
    (name_of : Str → Option Str) (d : DomainSet) (texts : List Str) (ls : List Str)
    → IsHeld name_of d texts
    → AreLabels ls
    → covers d ls ≡ stands_above name_of texts ls
unfolding covers
tails_covers name_of d texts [] h a = refl
tails_covers name_of d texts (l ∷ ls) h a =
    ground
      (arith, h.1 (dotted (l ∷ ls)) (dotted-ne-nil l ls a), tails_covers name_of d texts ls h a.1)

-- The item's names are those of these lines, which are clean.
abbrev pub IsReadFrom : NameLibs → List Str → Option NameItem → Type 0
IsReadFrom libs lines none = ⊥
IsReadFrom libs lines (some item) =
    AreClean (line_name libs) lines × IsHeld (line_name libs) item.names lines

-- The lists of the upstream have the names of these texts, in their order.
abbrev pub AreReadFrom : NameLibs → List (List Str) → Upstream → Type 0
AreReadFrom libs texts u = Pairs (IsReadFrom libs) texts u.items

module _ (libs : NameLibs) where
  clean_or_nil :
      (lines : List Str)
      → (lines ≡ []) ⊎ AreClean (line_name libs) lines
      → AreClean (line_name libs) lines
  clean_or_nil lines (inl e) = rw e tt
  clean_or_nil lines (inr c) = c

  items_covers :
      (items : List (Option NameItem)) (ls : List Str)
      → AreLabels ls
      → All (IsSourced libs (AreClean (line_name libs))) items
      → (texts : List (List Str)) × Pairs (IsReadFrom libs) texts items
        × All IsSearchable items
        × (any (item_covers ls) items ≡ any (λ lines. stands_above (line_name libs) lines ls) texts)
  items_covers [] ls a h = ([], tt, tt, refl)
  items_covers (none ∷ items) ls a h = absurd (h.0)
  items_covers (some item ∷ items) ls a ((lines, c, held), hs) =
      let (texts, cs, ss, e) = items_covers items ls a hs in
      (
        lines ∷ texts,
        ((clean_or_nil lines c, held), cs),
        (
          (held.0, IsHeld-AreDomains (line_name libs) item.names lines (clean_or_nil lines c) held),
          ss,
        ),
        ground (arith, e, tails_covers (line_name libs) item.names lines ls held a),
      )

  Serves-rule :
      (root_matches : Str → Bool) (block : Block) (u : Upstream) (ls : List Str)
      → NameLaws libs
      → ((s : Str) → root_matches s ≡ true)
      → IsCleanBlock libs block
      → Serves libs (AreClean (line_name libs)) block u
      → ls ≢ []
      → AreLabels ls
      → AreFolded ls
      → (texts : List (List Str)) × AreReadFrom libs texts u
        × (matches libs root_matches u (dotted ls) ≡ ret (rule libs block texts ls))
  Serves-rule root_matches block u ls laws root (ci, ce) s ne a f =
      let (texts, c, ss, e) = items_covers u.items ls a s.items in
      let loaded : IsLoaded u = record {
        items = ss;
        inline = (
          s.inline.0,
          IsHeld-AreDomains (add_name libs) u.inline (inline_texts block.lines) ci s.inline,
        );
        ignored = (
          s.ignored.0,
          IsHeld-AreDomains (add_name libs) u.ignored (except_texts block.lines) ce s.ignored,
        );
      } in
      (
        texts,
        c,
        matches_lem libs root_matches u ls laws root loaded ne a f
            ∙ rw
                (
                  s.root,
                  e,
                  tails_covers (add_name libs) u.inline (inline_texts block.lines) ls s.inline a,
                  tails_covers (add_name libs) u.ignored (except_texts block.lines) ls s.ignored a,
                )
                refl,
      )

  upstreams-first :
      (root_matches : Str → Bool) (blocks : List Block) (ups : List Upstream) (ls : List Str)
      → NameLaws libs
      → ((s : Str) → root_matches s ≡ true)
      → All (IsCleanBlock libs) blocks
      → Pairs (Serves libs (AreClean (line_name libs))) blocks ups
      → ls ≢ []
      → AreLabels ls
      → AreFolded ls
      → (textss : List (List (List Str))) × Pairs (AreReadFrom libs) textss ups
        × (match_upstreams (matches libs root_matches) ups (dotted ls)
            ≡ ret (first_taking libs blocks textss ups ls))
  unfolding match_upstreams
  upstreams-first root_matches [] [] ls laws root c s ne a f = ([], tt, refl)
  upstreams-first root_matches [] (u ∷ ups) ls laws root c s ne a f = absurd s
  upstreams-first root_matches (block ∷ blocks) [] ls laws root c s ne a f = absurd s
  upstreams-first root_matches (block ∷ blocks) (u ∷ ups) ls laws root (c, cs) (s, ss) ne a f =
      let (texts, r, p) = Serves-rule root_matches block u ls laws root c s ne a f in
      let (textss, rs, q) = upstreams-first root_matches blocks ups ls laws root cs ss ne a f in
      (texts ∷ textss, (r, rs), rw (p, ◌>>=◌) (rw q (ground arith)))

-- From the configuration to the answer, under what is relied on of CoreDNS: after a setup without an error and a start without a
-- panic, whatever clean texts have been read since, the request of labels, with no upper case letter
-- and no escape, goes to the upstream of the first directive that takes its name. That is: its FROM is the root, or a line of the
-- text that a list of it holds stands for the name or for one above it, or an INLINE name does;
-- and no name of its excepts does. The configured names and those of the texts are domain names.
pub match_name-first :
    (libs : SetupLibs) (root_matches : Str → Bool) (blocks : List Block) (ups vs : List Upstream)
    (ls : List Str)
    → NameLaws libs.names
    → ((s : Str) → root_matches s ≡ true)
    → All (IsCleanBlock libs.names) blocks
    → new_upstreams libs blocks ≡ ok ups
    → Reach libs.names (AreClean (line_name libs.names)) ups vs
    → ls ≢ []
    → AreLabels ls
    → AreFolded ls
    → (textss : List (List (List Str))) × Pairs (AreReadFrom libs.names) textss vs
      × (match_name (matches libs.names root_matches) vs (dotted ls ++ codes ".")
          ≡ ret (first_taking libs.names blocks textss vs ls))
match_name-first libs root_matches blocks ups vs ls laws root c e r ne a f =
    let (textss, rs, q) =
      upstreams-first libs.names root_matches blocks vs ls laws root c
        (reach-Serves libs (AreClean (line_name libs.names)) blocks ups vs e r) ne a f in
    (textss, rs, unfold match_name in unfold asked in rw (asked-dotted ls ne a) q)

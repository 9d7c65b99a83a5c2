-- ===== src/System/Loaded.antt =====
-- What the upstreams are like at every time after the start: the invariant of the updates.
use dnsredir.Base.{◌==◌, length, if◌then◌else◌, List, [], ◌∷◌, Str, All, ◌≡◌, arith}
use mathlib.Core.Path.{subst}
use dnsredir.Base.Result.{ok, crash, ◌>>=◌, ok-injective, ok_of_bind}
use dnsredir.Externals.{NameLibs}
use dnsredir.DomainSet.{add_name}
use dnsredir.DomainSet.Held.{IsHeld}
use dnsredir.Config.{SetupLibs, Upstream}
use dnsredir.Config.Finish.{new_upstream}
use dnsredir.Config.Sets.{inline_texts, except_texts}
use dnsredir.Config.Made.{is_root, IsMade, new_upstream-IsMade}
use dnsredir.System.{
  Block, new_each, new_upstreams, Pairs, AtOne, here, there, UpstreamUpdate, update, Started,
  started, Reach, start, later,
}
use dnsredir.System.Sourced.{IsSourced, ItemUpdate-IsSourced, update_list-IsSourced}

-- An upstream serves its directive: it is for all names exactly if FROM is the root, each of its lists is there
-- with the names of one admitted text or none yet, and its INLINE names and excepts are those of the block.
pub record Serves (libs : NameLibs) (P : List Str → Type 0) (block : Block) (u : Upstream)
    : Type 0 where
  pub root : u.match_any ≡ is_root block.forms
  pub items : All (IsSourced libs P) u.items
  pub inline : IsHeld (add_name libs) u.inline (inline_texts block.lines)
  pub ignored : IsHeld (add_name libs) u.ignored (except_texts block.lines)

AtOne-All :
    {A : Type 0} {R : A → A → Type 0} {Q : A → Type 0}
    → ((x y : A) → R x y → Q x → Q y)
    → {xs ys : List A} → AtOne R xs ys
    → All Q xs
    → All Q ys
AtOne-All keep (here r) (q, qs) = (keep _ _ r q, qs)
AtOne-All keep (there a) (q, qs) = (q, AtOne-All keep a qs)

AtOne-Pairs :
    {A B : Type 0} {R : A → A → Type 0} {Q : B → A → Type 0}
    → ((b : B) (x y : A) → R x y → Q b x → Q b y)
    → (bs : List B) {xs ys : List A} → AtOne R xs ys
    → Pairs Q bs xs
    → Pairs Q bs ys
AtOne-Pairs keep [] (here r) p = absurd p
AtOne-Pairs keep (b ∷ bs) (here r) (p, ps) = (keep b _ _ r p, ps)
AtOne-Pairs keep [] (there a) p = absurd p
AtOne-Pairs keep (b ∷ bs) (there a) (p, ps) = (p, AtOne-Pairs keep bs a ps)

-- Two relations of pairs compose.
Pairs-trans :
    {A B C : Type 0} {Q : A → B → Type 0} {R : B → C → Type 0} {S : A → C → Type 0}
    → ((a : A) (b : B) (c : C) → Q a b → R b c → S a c)
    → (xs : List A) (ys : List B) (zs : List C) → Pairs Q xs ys
    → Pairs R ys zs
    → Pairs S xs zs
Pairs-trans both [] [] [] p q = tt
Pairs-trans both (x ∷ xs) (y ∷ ys) (z ∷ zs) (p, ps) (q, qs) =
    (both x y z p q, Pairs-trans both xs ys zs ps qs)
Pairs-trans both [] [] (z ∷ zs) p q = absurd q
Pairs-trans both [] (y ∷ ys) zs p q = absurd p
Pairs-trans both (x ∷ xs) [] zs p q = absurd p
Pairs-trans both (x ∷ xs) (y ∷ ys) [] p q = absurd q

-- newReloadableUpstream has made it from the directive.
abbrev pub MadeOf : NameLibs → Block → Upstream → Type 0
MadeOf libs block u = IsMade libs block.forms block.lines u

new_each-MadeOf :
    (libs : SetupLibs) (blocks : List Block) (ups : List Upstream)
    → new_each libs blocks ≡ ok ups
    → Pairs (MadeOf libs.names) blocks ups
unfolding new_each
new_each-MadeOf libs [] ups e =
    let t : [] ≡ ups = ok-injective e in subst (Pairs (MadeOf libs.names) []) t tt
new_each-MadeOf libs (block ∷ blocks) ups e =
    let (u, p, q) =
      ok_of_bind (new_upstream libs block.forms block.lines)
        (λ u. new_each libs blocks >>= λ ups. ok (u ∷ ups)) ups e in
    let (us, r, s) = ok_of_bind (new_each libs blocks) (λ us. ok (u ∷ us)) ups q in
    subst (Pairs (MadeOf libs.names) (block ∷ blocks)) (ok-injective s)
      (new_upstream-IsMade libs block.forms block.lines u p, new_each-MadeOf libs blocks us r)

new_upstreams-MadeOf :
    (libs : SetupLibs) (blocks : List Block) (ups : List Upstream)
    → new_upstreams libs blocks ≡ ok ups
    → Pairs (MadeOf libs.names) blocks ups
new_upstreams-MadeOf libs blocks ups e =
    let (us, p, q) =
      ok_of_bind (new_each libs blocks) (λ us. if length us == 0 then crash else ok us) ups
        (unfold new_upstreams in e) in
    let t : us ≡ ups = ground arith in
    subst (Pairs (MadeOf libs.names) blocks) t (new_each-MadeOf libs blocks us p)

module _ (libs : NameLibs) (P : List Str → Type 0) where
  Started-Serves :
      (block : Block) (u v : Upstream)
      → MadeOf libs block u
      → Started libs P u v
      → Serves libs P block v
  Started-Serves block u v m (started w adm e) = record {
    root = m.root;
    items = update_list-IsSourced libs P w u.items _ adm e m.fresh;
    inline = m.inline;
    ignored = m.ignored;
  }

  UpstreamUpdate-Serves :
      (block : Block) (u v : Upstream)
      → UpstreamUpdate libs P u v
      → Serves libs P block u
      → Serves libs P block v
  UpstreamUpdate-Serves block u v (update a) s = record {
    root = s.root;
    items = AtOne-All (ItemUpdate-IsSourced libs P) a s.items;
    inline = s.inline;
    ignored = s.ignored;
  }

  Reach-Serves :
      (blocks : List Block) (ups vs : List Upstream)
      → Pairs (MadeOf libs) blocks ups
      → Reach libs P ups vs
      → Pairs (Serves libs P) blocks vs
  Reach-Serves blocks ups vs m (start s) = Pairs-trans Started-Serves blocks ups vs m s
  Reach-Serves blocks ups vs m (later r a) =
      AtOne-Pairs UpstreamUpdate-Serves blocks a (Reach-Serves blocks ups _ m r)

-- After a setup that gives no error, and a start that does not panic, the upstreams always serve the
-- directives, one each and in their order, whatever updates have been made: each of an upstream's lists is there, and
-- its names are those of one admitted text that was read, or there are none yet; the INLINE names and the
-- excepts are those of the block, each in its bucket; and it is for all names exactly if FROM is the root.
pub reach-Serves :
    (libs : SetupLibs) (P : List Str → Type 0) (blocks : List Block) (ups vs : List Upstream)
    → new_upstreams libs blocks ≡ ok ups
    → Reach libs.names P ups vs
    → Pairs (Serves libs.names P) blocks vs
reach-Serves libs P blocks ups vs e r =
    Reach-Serves libs.names P blocks ups vs (new_upstreams-MadeOf libs blocks ups e) r

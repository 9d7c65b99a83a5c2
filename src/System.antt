-- ===== src/System.antt =====
-- The plugin as a whole: the upstreams that NewReloadableUpstreams of upstream.go makes, the first updates
-- of their lists when they start, and the updates after that, which come in any order between requests.
-- A lock spans each update of an item and each Match of one, so one update of one item is a step.
pub mod Sourced
pub mod Loaded
pub mod Runs
pub mod Updates
pub mod Safety
pub mod Redirect
use dnsredir.Base.{
  Bool, true, false, Option, none, some, List, [], ◌∷◌, length, ◌==◌, if◌then◌else◌, Str, split,
  Run, ret, ◌≡◌,
}
use dnsredir.Base.Result.{Result, ok, err, crash, stuck, ◌>>=◌}
use dnsredir.Externals.{NameLibs}
use dnsredir.NameFile.{scan_lines}
use dnsredir.NameList.{
  NameItem, FileStat, Opened, open_error, file, World, last, update_item_from_path,
  update_item_from_url, update_list,
}
use dnsredir.Config.{SetupLibs, Upstream}
use dnsredir.Config.Finish.{new_upstream}

-- One dnsredir directive: the arguments of FROM and the lines of the block.
pub record Block : Type 0 where
  pub forms : List Str
  pub lines : List (Str × List Str)

unfoldable pub new_each : SetupLibs → List Block → Result (List Upstream)
unfolding new_upstream
new_each libs [] = ok []
new_each libs (block ∷ blocks) =
    new_upstream libs block.forms block.lines >>= λ u. new_each libs blocks >>= λ ups. ok (u ∷ ups)

-- NewReloadableUpstreams; no directive at all is a panic.
unfoldable pub new_upstreams : SetupLibs → List Block → Result (List Upstream)
unfolding new_each
new_upstreams libs blocks =
    new_each libs blocks >>= λ ups. if length ups == 0 then crash else ok ups

-- Two lists of the same length, the items related in pairs.
abbrev pub Pairs : {A B : Type 0} → (A → B → Type 0) → List A → List B → Type 0
Pairs R [] [] = Unit
Pairs R (x ∷ xs) (y ∷ ys) = R x y × Pairs R xs ys
Pairs R _ _ = ⊥

-- One item is replaced by one that it is related to.
pub data AtOne {A : Type 0} (R : A → A → Type 0) : List A → List A → Type 0 where
  here : {x y : A} {xs : List A} → R x y → AtOne R (x ∷ xs) (y ∷ xs)
  there : {x : A} {xs ys : List A} → AtOne R xs ys → AtOne R (x ∷ xs) (x ∷ ys)

-- The lines of a file that is read are among the admitted ones.
abbrev pub Admits : (List Str → Type 0) → Opened → Type 0
Admits P open_error = Unit
Admits P (file stat content) = P (scan_lines content)

abbrev pub AdmitsUrl : (List Str → Type 0) → Option Str → Type 0
AdmitsUrl P none = Unit
AdmitsUrl P (some content) = P (split b'\n' content)

module _ (libs : NameLibs) (P : List Str → Type 0) where
  -- An update of an item from its file or from its URL.
  pub data ItemUpdate (item item' : NameItem) : Type 0 where
    from_path :
        (o : Opened)
        → Admits P o
        → update_item_from_path libs item o ≡ ret item'
        → ItemUpdate item item'
    from_url :
        (fetched : Option Str) (done : Bool)
        → AdmitsUrl P fetched
        → update_item_from_url libs item fetched ≡ ret (item', done)
        → ItemUpdate item item'

  abbrev pub SlotUpdate : Option NameItem → Option NameItem → Type 0
  SlotUpdate (some item) (some item') = ItemUpdate item item'
  SlotUpdate _ _ = ⊥

  pub data UpstreamUpdate (u : Upstream) : Upstream → Type 0 where
    update :
        {items : List (Option NameItem)}
        → AtOne SlotUpdate u.items items
        → UpstreamUpdate u (record u { items = items })

  -- The first updates of an upstream, from files with admitted lines.
  pub data Started (u : Upstream) : Upstream → Type 0 where
    started :
        (w : World) {items : List (Option NameItem)}
        → ((path : Str) → Admits P (w.open_path path))
        → update_list libs w last u.items ≡ ret items
        → Started u (record u { items = items })

  -- What the upstreams can become after the start.
  pub data Reach (ups : List Upstream) : List Upstream → Type 0 where
    start : {vs : List Upstream} → Pairs Started ups vs → Reach ups vs
    later : {vs ws : List Upstream} → Reach ups vs → AtOne UpstreamUpdate vs ws → Reach ups ws

-- ===== src/Domain/Labels.antt =====
-- A dotted name as a list of labels, and how the source's text functions act on one.
use dnsredir.Base.{
  split-append, split-Lacks, ℕ, ◌-◌, ◌≡◌, refl, ap, ◌≢◌, some, List, [], ◌∷◌, ◌++◌, length, All,
  Str, Lacks, split, cons_head, arith, length-append, get_elem?, take,
}
use dnsredir.Domain.{remove_trailing_dot}

-- The labels with a dot between each two.
unfoldable pub dotted : List Str → Str
dotted [] = []
dotted (l ∷ []) = l
dotted (l ∷ m ∷ ls) = l ++ b'.' ∷ dotted (m ∷ ls)

-- The name itself and the names above it: the suffixes that begin at a label.
abbrev pub tails : List Str → List (List Str)
tails [] = []
tails (l ∷ ls) = (l ∷ ls) ∷ tails ls

cons_head-ne-nil : (c : ℕ) (ps : List Str) → cons_head c ps ≢ []
cons_head-ne-nil c [] h = ground arith
cons_head-ne-nil c (p ∷ ps) h = ground arith

pub split-ne-nil : (sep : ℕ) (s : Str) → split sep s ≢ []
unfolding split
split-ne-nil sep [] h = ground arith
split-ne-nil sep (c ∷ s) h = ground (arith, cons_head-ne-nil c (split sep s))

dotted-cons_nil : (ps : List Str) → ps ≢ [] → dotted ([] ∷ ps) ≡ b'.' ∷ dotted ps
unfolding dotted
dotted-cons_nil [] h = absurd (h refl)
dotted-cons_nil (p ∷ ps) h = refl

dotted-cons_head : (c : ℕ) (ps : List Str) → dotted (cons_head c ps) ≡ c ∷ dotted ps
unfolding dotted
dotted-cons_head c [] = refl
dotted-cons_head c (p ∷ []) = refl
dotted-cons_head c (p ∷ q ∷ ps) = refl

-- The segments of a text, with dots between them, spell the text.
pub dotted-split : (s : Str) → dotted (split b'.' s) ≡ s
unfolding split
dotted-split [] = unfold dotted in refl
dotted-split (c ∷ s) = ground (
  arith,
  dotted-split s,
  dotted-cons_nil (split b'.' s) (split-ne-nil b'.' s),
  dotted-cons_head c (split b'.' s),
)

-- Labels without dots are the segments of the name that they spell.
pub split-dotted : (ls : List Str) → ls ≢ [] → All (Lacks b'.') ls → split b'.' (dotted ls) ≡ ls
unfolding dotted
split-dotted [] ne h = absurd (ne refl)
split-dotted (l ∷ []) ne h = split-Lacks b'.' l h.0
split-dotted (l ∷ m ∷ ls) ne (hl, h) =
    ground
      (arith, split-append b'.' l (dotted (m ∷ ls)) hl, split-dotted (m ∷ ls) (λ e. ground arith) h)

get_elem?-append_last : (s : Str) (b : ℕ) → get_elem? (s ++ b ∷ []) (length s) ≡ some b
get_elem?-append_last [] b = refl
get_elem?-append_last (c ∷ s) b = get_elem?-append_last s b

take-append_last : (s : Str) (b : ℕ) → take (length s) (s ++ b ∷ []) ≡ s
take-append_last [] b = refl
take-append_last (c ∷ s) b = ap (λ t. c ∷ t) (take-append_last s b)

length-append_last : (s : Str) (b : ℕ) → length (s ++ b ∷ []) - 1 ≡ length s
length-append_last s b = omega (arith, length-append s (b ∷ []))

pub remove_trailing_dot-append : (s : Str) → remove_trailing_dot (s ++ b'.' ∷ []) ≡ s
unfolding remove_trailing_dot
remove_trailing_dot-append s = ground (
  arith,
  length-append_last s b'.',
  get_elem?-append_last s b'.',
  take-append_last s b'.',
  length-append s (b'.' ∷ []),
)

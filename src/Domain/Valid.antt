-- ===== src/Domain/Valid.antt =====
-- What isDomainName and stringToDomain of utils.go accept, against a description of domain names
-- that does not walk the text.
use dnsredir.Base.{
  ℕ, zero, suc, ◌-◌, ◌<◌, ◌≤◌, ◌≡◌, refl, sym, ap, ◌∙◌, ◌≢◌, ◌↔◌, ◌⊎◌, inl, inr, true, false, ◌&&◌,
  none, some, List, [], ◌∷◌, ◌++◌, map, ◌==◌, if◌then◌else◌, length, All, Str, Lacks, split,
  cons_head, arith, take, ltb, Bool-cases, any, to_lower, lower_byte, is_ascii,
}
use mathlib.Core.List.{map-append}
use dnsredir.Domain.{
  bad_byte, byte_is, segments, is_domain_name, remove_trailing_dot, string_to_domain,
}
use dnsredir.Domain.Labels.{
  dotted, dotted-split, split-dotted, split-ne-nil, remove_trailing_dot-append,
}

-- A hyphen, a digit or a lower case letter.
abbrev pub LabelByte : ℕ → Type 0
LabelByte c = (c ≡ b'-') ⊎ ((b'0' ≤ c) × (c ≤ b'9')) ⊎ ((b'a' ≤ c) × (c ≤ b'z'))

-- 1 to 63 such bytes, with no hyphen at either end.
abbrev pub IsLabel : Str → Type 0
IsLabel l =
    (0 < length l)
    × (length l ≤ 63)
    × All LabelByte l
    × (byte_is l 0 b'-' ≡ false)
    × (byte_is l (length l - 1) b'-' ≡ false)

-- One label or more with dots between them.
abbrev pub IsDomain : Str → Type 0
IsDomain s = (ls : List Str) × (ls ≢ []) × All IsLabel ls × (s ≡ dotted ls)

any-bad_byte : (l : Str) → any bad_byte l ≡ false → All LabelByte l
any-bad_byte [] h = tt
any-bad_byte (c ∷ l) h = (ground arith, any-bad_byte l (ground arith))

LabelByte→bad_byte : (l : Str) → All LabelByte l → any bad_byte l ≡ false
LabelByte→bad_byte [] h = refl
LabelByte→bad_byte (c ∷ l) h = ground (arith, LabelByte→bad_byte l h.1)

segments_sound : (ls : List Str) → segments ls ≡ true → All IsLabel ls
unfolding segments
segments_sound [] h = tt
segments_sound (l ∷ ls) h = (
  (ground arith, ground arith, any-bad_byte l (ground arith), ground arith, ground arith),
  segments_sound ls (ground arith),
)

segments_complete : (ls : List Str) → All IsLabel ls → segments ls ≡ true
unfolding segments
segments_complete [] h = refl
segments_complete (l ∷ ls) ((h0, h1, hb, hf, hl), h) =
    ground (arith, LabelByte→bad_byte l hb, segments_complete ls h)

All-LabelByte-Lacks : (l : Str) → All LabelByte l → Lacks b'.' l
All-LabelByte-Lacks [] h = tt
All-LabelByte-Lacks (c ∷ l) h = (ground arith, All-LabelByte-Lacks l h.1)

pub All-IsLabel-Lacks : (ls : List Str) → All IsLabel ls → All (Lacks b'.') ls
All-IsLabel-Lacks [] h = tt
All-IsLabel-Lacks (l ∷ ls) h = (All-LabelByte-Lacks l h.0.2, All-IsLabel-Lacks ls h.1)

segments-is_domain_name : (s : Str) → is_domain_name s ≡ segments (split b'.' s)
unfolding is_domain_name
segments-is_domain_name s = go (split b'.' s) (split-ne-nil b'.' s)
  where
    go : (f : List Str) → f ≢ [] → (if length f == 0 then false else segments f) ≡ segments f
    go [] h = absurd (h refl)
    go (l ∷ ls) h = ground arith

-- isDomainName accepts exactly the domain names: one or more labels of 1 to 63 lower case
-- letters, digits and hyphens, no hyphen at the end of a label, with dots between the labels.
pub is_domain_name_iff : (s : Str) → (is_domain_name s ≡ true) ↔ IsDomain s
is_domain_name_iff s = (
  λ h. (
    split b'.' s,
    split-ne-nil b'.' s,
    segments_sound _ (sym (segments-is_domain_name s) ∙ h),
    sym (dotted-split s),
  ),
  λ d.
      rw (segments-is_domain_name s) (
        rw d.3 (rw (split-dotted d.0 d.1 (All-IsLabel-Lacks d.0 d.2)) (segments_complete d.0 d.2))),
)

length-zero : (s : Str) → length s ≡ 0 → s ≡ []
length-zero [] h = refl
length-zero (c ∷ s) h = ground arith

last_byte :
    (s : Str) (n : ℕ) → length s ≡ suc n → byte_is s n b'.' ≡ true → s ≡ take n s ++ b'.' ∷ []
last_byte [] n e h = ground arith
last_byte (c ∷ s) zero e h = ground (arith, length-zero s)
last_byte (c ∷ s) (suc n) e h = ap (λ t. c ∷ t) (last_byte s n (omega arith) h)

-- What the removal of a trailing dot leaves.
remove_trailing_dot-cases :
    (s : Str) → (s ≡ remove_trailing_dot s ++ b'.' ∷ []) ⊎ (s ≡ remove_trailing_dot s)
unfolding remove_trailing_dot
remove_trailing_dot-cases s =
    elim (Bool-cases (ltb 0 (length s) && byte_is s (length s - 1) b'.')) [
      | inl h ↦ inl (rw h (last_byte s (length s - 1) (ground arith) (ground arith)))
      | inr h ↦ inr (rw h)
    ]

cons_head-append :
    (c : ℕ) (ps qs : List Str) → ps ≢ [] → cons_head c (ps ++ qs) ≡ cons_head c ps ++ qs
cons_head-append c [] qs h = absurd (h refl)
cons_head-append c (p ∷ ps) qs h = refl

split-append_dot : (s : Str) → split b'.' (s ++ b'.' ∷ []) ≡ split b'.' s ++ [] ∷ []
unfolding split
split-append_dot [] = ground arith
split-append_dot (c ∷ s) =
    ground
      (arith, split-append_dot s, cons_head-append c (split b'.' s) ([] ∷ []) (split-ne-nil b'.' s))

segments-append_nil : (ls : List Str) → segments (ls ++ [] ∷ []) ≡ false
unfolding segments
segments-append_nil [] = ground arith
segments-append_nil (l ∷ ls) = ground (arith, segments-append_nil ls)

is_domain_name-append_dot : (s : Str) → is_domain_name (s ++ b'.' ∷ []) ≡ false
is_domain_name-append_dot s =
    rw (segments-is_domain_name, split-append_dot s) (segments-append_nil (split b'.' s))

pub remove_trailing_dot-domain : (s : Str) → is_domain_name s ≡ true → remove_trailing_dot s ≡ s
remove_trailing_dot-domain s h = elim (remove_trailing_dot-cases s) [
  | inl e ↦ absurd (cc (ap is_domain_name e, is_domain_name-append_dot (remove_trailing_dot s)))
  | inr e ↦ sym e
]

-- stringToDomain returns n exactly when n is a domain name and the lower case of the text is n,
-- or n with one dot behind it.
pub string_to_domain_iff :
    (lower : Str → Str) (s n : Str)
    → (string_to_domain lower s ≡ some n)
      ↔ (IsDomain n × ((to_lower lower s ≡ n) ⊎ (to_lower lower s ≡ n ++ b'.' ∷ [])))
string_to_domain_iff lower s n = (sound, complete)
  where
    t : Str
    t = to_lower lower s

    unfold_lem :
        string_to_domain lower s
        ≡ (if is_domain_name (remove_trailing_dot t) then some (remove_trailing_dot t) else none)
    unfold_lem = unfold string_to_domain in refl

    sound : string_to_domain lower s ≡ some n → IsDomain n × ((t ≡ n) ⊎ (t ≡ n ++ b'.' ∷ []))
    sound h =
        let e : remove_trailing_dot t ≡ n = ground (arith, unfold_lem) in
        let v : is_domain_name n ≡ true = ground (arith, unfold_lem) in
        (
          (is_domain_name_iff n).0 v,
          elim (remove_trailing_dot-cases t) [ inl p ↦ inr (rw e at p) | inr p ↦ inl (rw e at p) ],
        )

    complete : IsDomain n × ((t ≡ n) ⊎ (t ≡ n ++ b'.' ∷ [])) → string_to_domain lower s ≡ some n
    complete (d, inl e) =
        let v = (is_domain_name_iff n).1 d in
        ground (arith, unfold_lem, remove_trailing_dot-domain n v)
    complete (d, inr e) =
        let v = (is_domain_name_iff n).1 d in
        let r : remove_trailing_dot t ≡ n = rw e (remove_trailing_dot-append n) in
        rw unfold_lem (rw r (rw v))

All-LabelByte-lower : (l : Str) → All LabelByte l → (is_ascii l ≡ true) × (map lower_byte l ≡ l)
All-LabelByte-lower [] h = (refl, refl)
All-LabelByte-lower (c ∷ l) h =
    let (a, m) = All-LabelByte-lower l h.1 in (ground arith, ground arith)

is_ascii-append : (s t : Str) → is_ascii (s ++ t) ≡ (is_ascii s && is_ascii t)
is_ascii-append [] t = refl
is_ascii-append (c ∷ s) t = ground (arith, is_ascii-append s t)

dotted-lower :
    (ls : List Str)
    → All IsLabel ls
    → (is_ascii (dotted ls) ≡ true) × (map lower_byte (dotted ls) ≡ dotted ls)
unfolding dotted
dotted-lower [] h = (refl, refl)
dotted-lower (l ∷ []) h = All-LabelByte-lower l h.0.2
dotted-lower (l ∷ m ∷ ls) (h, hs) =
    let (a, e) = All-LabelByte-lower l h.2 in
    let (b, f) = dotted-lower (m ∷ ls) hs in
    (rw is_ascii-append (ground arith), simp map-append (ground arith))

-- A domain name is its own lower case.
pub to_lower-IsDomain : (lower : Str → Str) (n : Str) → IsDomain n → to_lower lower n ≡ n
unfolding to_lower
to_lower-IsDomain lower n d = let (a, e) = dotted-lower d.0 d.2 in rw d.3 (rw a e)

-- What stringToDomain returned, it returns again.
pub string_to_domain_idem :
    (lower : Str → Str) (s n : Str)
    → string_to_domain lower s ≡ some n
    → string_to_domain lower n ≡ some n
string_to_domain_idem lower s n h =
    let d = ((string_to_domain_iff lower s n).0 h).0 in
    (string_to_domain_iff lower n n).1 (d, inl (to_lower-IsDomain lower n d))

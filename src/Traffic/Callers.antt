-- ===== src/Traffic/Callers.antt =====
-- The callers as a list: what a move of one of them changes.
use dnsredir.Base.{
  ℕ, zero, suc, ◌+◌, ◌≤◌, some, List, [], ◌∷◌, All, get_elem?, ◌≡◌, ◌≢◌, refl, arith,
}
use mathlib.Core.Path.{subst}
use dnsredir.Traffic.{Caller, Moves, here, there}

-- A measure of the callers, summed up.
abbrev pub total : (Caller → ℕ) → List Caller → ℕ
total w [] = 0
total w (c ∷ cs) = w c + total w cs

pub total-Moves :
    (w : Caller → ℕ) {c d : Caller} {cs ds : List Caller}
    → Moves c d cs ds
    → total w ds + w c ≡ total w cs + w d
total-Moves w here = omega arith
total-Moves w (there m) = omega (arith, total-Moves w m)

pub total-le :
    (w : Caller → ℕ) {c d : Caller} {cs ds : List Caller} → Moves c d cs ds → w c ≤ total w cs
total-le w here = omega arith
total-le w (there m) = omega (arith, total-le w m)

-- A move keeps what holds of all callers, if the new point has it.
pub All-Moves :
    (P : Caller → Type 0) {c d : Caller} {cs ds : List Caller}
    → Moves c d cs ds
    → (P c → P d)
    → All P cs
    → All P ds
All-Moves P here f (p, ps) = (f p, ps)
All-Moves P (there m) f (p, ps) = (p, All-Moves P m f ps)

pub All-at :
    (P : Caller → Type 0) {c d : Caller} {cs ds : List Caller} → Moves c d cs ds → All P cs → P c
All-at P here (p, ps) = p
All-at P (there m) (p, ps) = All-at P m ps

-- The caller at a place can move, and the others stay as they are.
pub move_at :
    (cs : List Caller) (i : ℕ) (c d : Caller)
    → get_elem? cs i ≡ some c
    → (ds : List Caller) × Moves c d cs ds × (get_elem? ds i ≡ some d)
move_at [] i c d e = absurd (ground arith)
move_at (b ∷ cs) zero c d e =
    let q : c ≡ b = cc in (d ∷ cs, subst (λ x. Moves c d (x ∷ cs) (d ∷ cs)) q here, refl)
move_at (b ∷ cs) (suc i) c d e = let (ds, m, f) = move_at cs i c d e in (b ∷ ds, there m, f)

-- A move of a caller at another point leaves the caller at this place alone.
pub get_elem?-Moves :
    (i : ℕ) (b : Caller) {c d : Caller} {cs ds : List Caller}
    → Moves c d cs ds
    → b ≢ c
    → get_elem? cs i ≡ some b
    → get_elem? ds i ≡ some b
get_elem?-Moves zero b here ne e = absurd (ne cc)
get_elem?-Moves (suc i) b here ne e = e
get_elem?-Moves zero b (there m) ne e = e
get_elem?-Moves (suc i) b (there m) ne e = get_elem?-Moves i b m ne e

-- If the measure is there, a caller has it.
pub total-witness :
    (w : Caller → ℕ) (cs : List Caller)
    → 1 ≤ total w cs
    → (i : ℕ) × (c : Caller) × (get_elem? cs i ≡ some c) × (1 ≤ w c)
total-witness w [] h = absurd (omega arith)
total-witness w (c ∷ cs) h = by_head (total-witness w cs) (w c) refl
  where
    by_head :
        (1 ≤ total w cs → (i : ℕ) × (d : Caller) × (get_elem? cs i ≡ some d) × (1 ≤ w d))
        → (n : ℕ) → w c ≡ n
        → (i : ℕ) × (d : Caller) × (get_elem? (c ∷ cs) i ≡ some d) × (1 ≤ w d)
    by_head ih zero e = let (i, d, f, g) = ih (omega (arith, h, e)) in (suc i, d, f, g)
    by_head ih (suc n) e = (0, c, refl, omega (arith, e))

pub All-get :
    (P : Caller → Type 0) (cs : List Caller) (i : ℕ) (c : Caller)
    → get_elem? cs i ≡ some c
    → All P cs
    → P c
All-get P [] i c e h = absurd (ground arith)
All-get P (b ∷ cs) zero c e (p, ps) = let q : b ≡ c = cc in subst P q p
All-get P (b ∷ cs) (suc i) c e (p, ps) = All-get P cs i c e ps

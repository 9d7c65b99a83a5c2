-- ===== src/Base/Steps.antt =====
-- Sequences of steps of a relation.
use mathlib.Core.Path.{◌≡◌, subst}

pub data Many {A : Type 0} (R : A → A → Type 0) (x : A) : A → Type 0 where
  stay : Many R x x
  step : {y z : A} → Many R x y → R y z → Many R x z

pub Many-trans :
    {A : Type 0} {R : A → A → Type 0} {x y z : A} → Many R x y → Many R y z → Many R x z
Many-trans m stay = m
Many-trans m (step n r) = step (Many-trans m n) r

pub Many-map :
    {A B : Type 0} {R : A → A → Type 0} {S : B → B → Type 0} (f : A → B)
    → ((x y : A) → R x y → S (f x) (f y))
    → {x y : A} → Many R x y
    → Many S (f x) (f y)
Many-map f h stay = stay
Many-map f h (step m r) = step (Many-map f h m) (h _ _ r)

pub Many-of_eq : {A : Type 0} {R : A → A → Type 0} {x y : A} → x ≡ y → Many R x y
Many-of_eq {R} {x} e = subst (Many R x) e stay

-- What every step keeps, many steps keep.
pub Many-keeps :
    {A : Type 0} {R : A → A → Type 0} {P : A → Type 0}
    → ((x y : A) → R x y → P x → P y)
    → {x y : A} → Many R x y
    → P x
    → P y
Many-keeps h stay p = p
Many-keeps h (step m r) p = h _ _ r (Many-keeps h m p)

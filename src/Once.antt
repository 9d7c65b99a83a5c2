-- ===== src/Once.antt =====
-- Once of utils.go. Its compare and swap is atomic, so that the calls of several goroutines come one after another.
use dnsredir.Base.{
  ℕ, zero, suc, ◌+◌, Bool, true, false, Option, none, some, if◌then◌else◌, ◌==◌, ◌≡◌, refl, arith,
}

-- Do: what the Once becomes, and whether the function is called; `none` is a nil pointer.
unfoldable pub once_do : Option ℕ → Option ℕ × Bool
once_do none = (none, false)
once_do (some o) = if o == 0 then (some 1, true) else (some o, false)

-- How often the function is called by a number of calls of Do.
unfoldable pub runs : ℕ → Option ℕ → ℕ
unfolding once_do
runs zero o = 0
runs (suc n) o = (if (once_do o).1 then 1 else 0) + runs n (once_do o).0

runs-done : (n : ℕ) → runs n (some 1) ≡ 0
unfolding runs
runs-done zero = refl
runs-done (suc n) = ground (arith, runs-done n)

runs-nil : (n : ℕ) → runs n none ≡ 0
unfolding runs
runs-nil zero = refl
runs-nil (suc n) = ground (arith, runs-nil n)

-- However many calls of Do there are, on a new Once the function is called exactly once, by the first; and
-- never on a nil.
pub runs_once : (n : ℕ) → (runs (suc n) (some 0) ≡ 1) × (runs n none ≡ 0)
unfolding runs
runs_once n = (ground (arith, runs-done n), runs-nil n)

-- ===== src/Pf/Calls.antt =====
-- pf/pf_darwin_cgo.go and pf/errno.go: what Open, Close, IsEnabled, AddTable and AddAddr make of the C
-- functions that they call. Those are an argument, as are To4 and To16 of package net.
use dnsredir.Base.{
  ℕ, suc, zero, ◌+◌, ◌⊎◌, inl, inr, Bool, true, false, not, Option, none, some, List, [], ◌∷◌,
  length, if◌then◌else◌, ◌==◌, Str, Run, ret, panic, ◌>>=◌, ◌≡◌, refl, arith,
}
use dnsredir.Base.Int.{ℤ, pos, negsuc}

-- The result of a C function: zero or a number, or a negated errno.
pub record CPf : Type 0 where
  pub pf_open : ℕ → ℤ
  pub pf_close : ℤ → ℤ
  pub pf_is_enabled : ℤ → ℤ
  pub pf_add_table : ℤ → Str → Str → ℤ
  pub pf_add_addr : ℤ → Str → Str → Str → ℕ → ℤ

-- An error: os.ErrInvalid, or an ErrnoError.
pub data PfError : Type 0 where
  invalid : PfError
  errno_error : ℕ → PfError

-- The optional argument that admits a zero.
unfoldable pub allows_zero : List Bool → Run Bool
allows_zero [] = ret false
allows_zero (flag ∷ []) = ret flag
allows_zero (flag ∷ other ∷ flags) = panic

unfoldable pub translate_negated_errno : ℤ → List Bool → Run (Option PfError)
unfolding allows_zero
translate_negated_errno errno allow_zero_arg = allows_zero allow_zero_arg >>= λ allow_zero.
    elim errno [
      | pos n ↦ if n == 0 then (if allow_zero then ret none else panic) else panic
      | negsuc n ↦ ret (some (errno_error (n + 1)))
    ]

-- A returned error or a value.
abbrev pub Returns : Type 0 → Type 0
Returns A = Run (PfError ⊎ A)

abbrev pub or_value {ℓ} : {A : Type ℓ} → A → Option PfError → PfError ⊎ A
or_value a none = inr a
or_value a (some e) = inl e

-- if rc < 0 { return ..., translateNegatedErrno(rc) }
unfoldable pub checked : {A : Type 0} → ℤ → (ℕ → A) → A → Returns A
unfolding translate_negated_errno
checked (pos n) value failed = ret (inr (value n))
checked (negsuc n) value failed =
    translate_negated_errno (negsuc n) [] >>= λ e. ret (or_value failed e)

unfoldable pub open_dev : CPf → ℕ → Returns ℕ
unfolding checked
open_dev c oflag = checked (c.pf_open oflag) (λ fd. fd) 0

unfoldable pub close_dev : CPf → ℤ → Run (Option PfError)
unfolding translate_negated_errno
close_dev c dev = translate_negated_errno (c.pf_close dev) (true ∷ [])

unfoldable pub is_enabled : CPf → ℤ → Returns Bool
unfolding checked
is_enabled c dev = checked (c.pf_is_enabled dev) (λ rc. not (rc == 0)) false

unfoldable pub add_table : CPf → ℤ → Str → Str → Returns Bool
unfolding checked
add_table c dev name anchor = checked (c.pf_add_table dev name anchor) (λ rc. not (rc == 0)) false

-- net.IP with its To4 and To16.
pub record NetIp : Type 0 where
  pub to4 : Option Str
  pub to16 : Option Str

unfoldable pub raw_address : NetIp → Option Str
raw_address ip = elim (ip.to4) [ some a ↦ some a | none ↦ ip.to16 ]

unfoldable pub add_addr : CPf → ℤ → Str → Str → NetIp → Returns Bool
unfolding raw_address checked
add_addr c dev name anchor ip = elim (raw_address ip) [
  | none ↦ ret (inl invalid)
  | some addr ↦
      checked (c.pf_add_addr dev name anchor addr (length addr)) (λ rc. not (rc == 0)) false
]

-- The value of a C call that did not fail, the errno of one that did.
abbrev pub Outcome : {A : Type 0} → ℤ → (ℕ → A) → Returns A → Type 0
Outcome (pos n) value r = r ≡ ret (inr (value n))
Outcome (negsuc n) value r = r ≡ ret (inl (errno_error (n + 1)))

pub checked-Outcome :
    {A : Type 0} (rc : ℤ) (value : ℕ → A) (failed : A) → Outcome rc value (checked rc value failed)
unfolding checked translate_negated_errno allows_zero
checked-Outcome (pos n) value failed = refl
checked-Outcome (negsuc n) value failed = refl

-- Close on a device: what pf_close must give for it not to panic.
abbrev pub Closes : ℤ → Run (Option PfError) → Type 0
Closes (pos zero) r = r ≡ ret none
Closes (pos (suc n)) r = r ≡ panic
Closes (negsuc n) r = r ≡ ret (some (errno_error (n + 1)))

-- No wrapper but Close can panic, whatever the C functions give: each returns the errno without its sign
-- for a negative number, and the value else, AddAddr an error for an address that is neither of four nor
-- of sixteen bytes. Close panics exactly if pf_close gives a positive number.
pub calls-Outcome :
    (c : CPf) (oflag : ℕ) (dev : ℤ) (name anchor : Str) (ip : NetIp)
    → Outcome (c.pf_open oflag) (λ fd. fd) (open_dev c oflag)
      × Outcome (c.pf_is_enabled dev) (λ rc. not (rc == 0)) (is_enabled c dev)
      × Outcome (c.pf_add_table dev name anchor) (λ rc. not (rc == 0)) (add_table c dev name anchor)
      × ((add_addr c dev name anchor ip ≡ ret (inl invalid))
          ⊎ ((addr : Str) × (raw_address ip ≡ some addr)
              × Outcome
                  (c.pf_add_addr dev name anchor addr (length addr))
                  (λ rc. not (rc == 0))
                  (add_addr c dev name anchor ip)))
      × Closes (c.pf_close dev) (close_dev c dev)
unfolding open_dev is_enabled add_table
calls-Outcome c oflag dev name anchor ip = (
  checked-Outcome (c.pf_open oflag) (λ fd. fd) 0,
  checked-Outcome (c.pf_is_enabled dev) (λ rc. not (rc == 0)) false,
  checked-Outcome (c.pf_add_table dev name anchor) (λ rc. not (rc == 0)) false,
  by_address (raw_address ip) refl,
  by_close (c.pf_close dev) refl,
)
  where
    by_address :
        (o : Option Str)
        → raw_address ip ≡ o
        → (add_addr c dev name anchor ip ≡ ret (inl invalid))
          ⊎ ((addr : Str) × (raw_address ip ≡ some addr)
              × Outcome
                  (c.pf_add_addr dev name anchor addr (length addr))
                  (λ rc. not (rc == 0))
                  (add_addr c dev name anchor ip))
    by_address none e = inl (unfold add_addr in rw (e, add_addr) refl)
    by_address (some addr) e = inr (
      addr,
      e,
      unfold add_addr in
          rw (e, add_addr)
            (checked-Outcome (c.pf_add_addr dev name anchor addr (length addr))
              (λ rc. not (rc == 0)) false),
    )

    by_close : (rc : ℤ) → c.pf_close dev ≡ rc → Closes rc (close_dev c dev)
    by_close (pos zero) e =
        unfold close_dev translate_negated_errno allows_zero in rw e (ground arith)
    by_close (pos (suc n)) e =
        unfold close_dev translate_negated_errno allows_zero in rw e (ground arith)
    by_close (negsuc n) e =
        unfold close_dev translate_negated_errno allows_zero in rw e (ground arith)

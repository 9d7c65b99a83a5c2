-- ===== src/Pf/Device.antt =====
-- pfSetup over the C functions: when it gives an error.
use dnsredir.Base.{
  ℕ, ◌⊎◌, inl, inr, ◌==◌, Bool, true, false, not, ◌||◌, Option, none, some, [], ◌∷◌, all, Str, ret,
  panic, no_fuel, ◌≡◌, refl, ap, arith, Bool-cases,
}
use dnsredir.Base.Int.{ℤ, pos, negsuc}
use dnsredir.Base.Result.{Result, ok, err}
use dnsredir.Pf.{
  Table, Flags, TableSet, is_create_if_not_exist, PfHandle, PfLibs, create_tables, pf_opened,
  pf_setup,
}
use dnsredir.Pf.Calls.{
  CPf, Returns, open_dev, add_table, Outcome, translate_negated_errno, allows_zero, checked,
  checked-Outcome,
}

-- os.O_WRONLY
abbrev pub o_wronly : ℕ
o_wronly = 1

abbrev pub value_of : {A : Type 0} → Returns A → Option A
value_of (ret (inl e)) = none
value_of (ret (inr a)) = some a
value_of panic = none
value_of no_fuel = none

-- The functions of package pf that pfSetup and pfAddIP call.
unfoldable pub pf_libs_of : CPf → (Str → Option Str) → PfLibs
unfolding open_dev add_table
pf_libs_of c parse_ip = record {
  parse_ip = parse_ip;
  dev_pf = value_of (open_dev c o_wronly);
  add_table = λ dev t. value_of (add_table c (pos dev) t.name t.anchor);
}

abbrev pub is_value : ℤ → Bool
is_value (pos n) = true
is_value (negsuc n) = false

-- The table is not to be made, or the kernel makes or has it.
abbrev pub is_made : CPf → ℕ → Table × Flags → Bool
is_made c dev (t, flags) =
    not (is_create_if_not_exist flags) || is_value (c.pf_add_table (pos dev) t.name t.anchor)

abbrev pub result_of : Bool → Result (Unit {0})
result_of true = ok tt
result_of false = err

-- Whether a call gives a value, and which one.
value_of-Outcome :
    {A : Type 0} (rc : ℤ) (value : ℕ → A) (r : Returns A)
    → Outcome rc value r
    → ((is_value rc ≡ false) × (value_of r ≡ none))
      ⊎ ((a : A) × (is_value rc ≡ true) × (value_of r ≡ some a))
value_of-Outcome (pos n) value r e = inr (value n, refl, ap value_of e)
value_of-Outcome (negsuc n) value r e = inl (refl, ap value_of e)

create_tables-is_made :
    (c : CPf) (parse_ip : Str → Option Str) (dev : ℕ) (set : TableSet)
    → (create_tables (pf_libs_of c parse_ip) dev set).0 ≡ result_of (all (is_made c dev) set)
unfolding create_tables
create_tables-is_made c parse_ip dev [] = refl
create_tables-is_made c parse_ip dev ((t, flags) ∷ set) =
    let ih = create_tables-is_made c parse_ip dev set in
    elim (Bool-cases (is_create_if_not_exist flags)) [
      | inr n ↦ rw n ih
      | inl y ↦
          let o : Outcome (c.pf_add_table (pos dev) t.name t.anchor) (λ rc. not (rc == 0))
              (add_table c (pos dev) t.name t.anchor) =
            unfold add_table in
            checked-Outcome (c.pf_add_table (pos dev) t.name t.anchor) (λ rc. not (rc == 0))
              false in
          elim (value_of-Outcome (c.pf_add_table (pos dev) t.name t.anchor) (λ rc. not (rc == 0))
            (add_table c (pos dev) t.name t.anchor) o) [
              | inl (f, g) ↦
                  let g' : (pf_libs_of c parse_ip).add_table dev t ≡ none =
                    unfold pf_libs_of in g in
                  rw (y, g', f) refl
              | inr (fresh, f, g) ↦
                  let g' : (pf_libs_of c parse_ip).add_table dev t ≡ some fresh =
                    unfold pf_libs_of in g in
                  rw (y, g', f) ih
            ]
    ]

-- The device opens, and every table that is to be made is made or there.
abbrev pub is_set_up : CPf → TableSet → ℤ → Bool
is_set_up c set (pos dev) = all (is_made c dev) set
is_set_up c set (negsuc n) = false

-- pfSetup over the C functions gives no error exactly if pf_open gives no negative number and pf_add_table
-- none for any table with the flag to create it, on the device that was opened; then, and after
-- an error of a table too, the handle has that device.
pub pf_setup-is_set_up :
    (c : CPf) (parse_ip : Str → Option Str) (handle : PfHandle)
    → ((pf_setup (pf_libs_of c parse_ip) (some handle)).1.0
        ≡ result_of (is_set_up c handle.set (c.pf_open o_wronly)))
      × ((dev : ℕ)
          → c.pf_open o_wronly ≡ pos dev
          → (pf_setup (pf_libs_of c parse_ip) (some handle)).0
            ≡ some (record handle { dev = some dev }))
unfolding pf_opened create_tables
pf_setup-is_set_up c parse_ip handle = by_rc (c.pf_open o_wronly) refl
  where
    device :
        (o : Option ℕ) → value_of (open_dev c o_wronly) ≡ o → (pf_libs_of c parse_ip).dev_pf ≡ o
    device o e = unfold pf_libs_of in e

    by_rc :
        (rc : ℤ)
        → c.pf_open o_wronly ≡ rc
        → ((pf_setup (pf_libs_of c parse_ip) (some handle)).1.0
            ≡ result_of (is_set_up c handle.set rc))
          × ((dev : ℕ)
              → rc ≡ pos dev
              → (pf_setup (pf_libs_of c parse_ip) (some handle)).0
                ≡ some (record handle { dev = some dev }))
    by_rc (pos fd) e =
        let g = device (some fd) (unfold open_dev checked in rw (e, checked) refl) in
        (
          unfold pf_setup in rw g (create_tables-is_made c parse_ip fd handle.set),
          λ dev q. let k : fd ≡ dev = cc in unfold pf_setup in rw (g, k) refl,
        )
    by_rc (negsuc n) e =
        let g =
          device none
            (unfold open_dev checked translate_negated_errno allows_zero in rw (e, checked) refl) in
        (unfold pf_setup in rw g refl, λ dev q. absurd (ground arith))

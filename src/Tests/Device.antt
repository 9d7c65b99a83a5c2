-- ===== src/Tests/Device.antt =====
-- The pf device with C functions that all succeed, but for the making of a table.
use dnsredir.Base.{ℕ, some, [], ◌∷◌, ◌≡◌}
use dnsredir.Base.Int.{pos, negsuc}
use dnsredir.Pf.{pf_setup}
use dnsredir.Pf.Calls.{CPf, NetIp}
use dnsredir.Pf.Device.{pf_libs_of, result_of, is_set_up, pf_setup-is_set_up}
use dnsredir.Tests.Kernel.{direct_handle}

abbrev device : CPf
device = record {
  pf_open = λ oflag. pos 5;
  pf_close = λ dev. pos 0;
  pf_is_enabled = λ dev. pos 1;
  pf_add_table = λ dev name anchor. negsuc 0;
  pf_add_addr = λ dev name anchor addr n. pos n;
}

abbrev loopback : NetIp
loopback = record { to4 = some (127 ∷ 0 ∷ 0 ∷ 1 ∷ []); to16 = some [] }

pf_setup-is_set_up_example :
    ((pf_setup (pf_libs_of device (λ s. some s)) (some direct_handle)).1.0
      ≡ result_of (is_set_up device direct_handle.set (pos 5)))
    × ((dev : ℕ)
        → pos 5 ≡ pos dev
        → (pf_setup (pf_libs_of device (λ s. some s)) (some direct_handle)).0
          ≡ some (record direct_handle { dev = some dev }))
pf_setup-is_set_up_example = pf_setup-is_set_up device (λ s. some s) direct_handle

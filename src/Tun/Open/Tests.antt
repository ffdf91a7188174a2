-- ===== src/Tun/Open/Tests.antt =====
-- internal/tun/tun_linux.go, `Open` on a concrete system.
use red_mpudp.Prelude.{ℕ, ◌+◌, ◌-◌, refl, true, [], ◌∷◌, inr, none, some}
use red_mpudp.Prelude.Int.{pos}
use red_mpudp.Prelude.Bytes.{codes, str_eq, any_byte}
use red_mpudp.Config.Netip.{v4, prefix, addr_eq, unmap}
use red_mpudp.Tun.{TunConfig, validate, validate_name, validate_rest}
use red_mpudp.Tun.Settings.{IsTunConfig}
use red_mpudp.Tun.Open.{Kernel, open_device, configured, verify_link, verify_address, any_address}
use red_mpudp.Tun.Open.Resources.{Counts, Leaves, open_device-Leaves}
use red_mpudp.Tun.Open.Verified.{IsAsked, open_device-IsAsked}

-- The state is the numbers of open descriptors and connections. The kernel calls the interface red0.
abbrev kernel : Kernel (ℕ × ℕ) ℕ
kernel = record {
  open_tun = λ w. ((w.0 + 1, w.1), inr 7);
  new_ifreq = λ name. none;
  set_iff = λ fd name w. (w, inr name);
  interface_by_name = λ name w. (w, inr 3);
  dial = λ w. ((w.0, w.1 + 1), none);
  link_set = λ i m w. (w, none);
  address_new = λ i a n w. (w, none);
  link_get = λ i w. (w, inr (record { link_mtu = some 1180; up = true }));
  address_list =
      λ w. (w, inr (record { index = 3; address = some (v4 167772161); prefix_length = 24 } ∷ []));
  close_rtnl = λ w. (w.0, w.1 - 1);
  close_fd = λ fd w. (w.0 - 1, w.1);
}

abbrev settings : TunConfig
settings = record {
  name = codes "red0";
  address = prefix (v4 167772161) 24;
  mtu = pos 1180;
  max_packet = pos 0;
}

counts : Counts kernel (λ w. w.0) (λ w. w.1)
counts = record {
  on_open = λ w. (refl, refl);
  on_set_iff = λ fd name w. (refl, refl);
  on_lookup = λ name w. (refl, refl);
  on_dial = λ w. (refl, refl);
  on_link_set = λ i m w. (refl, refl);
  on_address_new = λ i a n w. (refl, refl);
  on_link_get = λ i w. (refl, refl);
  on_address_list = λ w. (refl, refl);
  on_close_rtnl = λ w. (refl, refl);
  on_close_fd = λ fd w. (refl, refl);
}

open_device-Leaves_example :
    Leaves kernel (λ w. w.0) (λ w. w.1) 4 2 (open_device kernel settings (4, 2))
open_device-Leaves_example = open_device-Leaves kernel (λ w. w.0) (λ w. w.1) counts settings (4, 2)

open_device-IsAsked_example :
    IsTunConfig settings
    × IsAsked kernel settings (4, 2) (5, 3) (configured settings 7 (codes "red0") 3)
unfolding open_device validate validate_name validate_rest str_eq any_byte verify_link
    verify_address any_address unmap addr_eq
open_device-IsAsked_example =
    open_device-IsAsked kernel settings (4, 2) (5, 3) (configured settings 7 (codes "red0") 3) refl

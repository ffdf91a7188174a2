-- ===== src/Tun/Tests.antt =====
-- internal/tun at a concrete device.
use red_mpudp.Prelude.{
  ℕ, suc, ◌+◌, ◌≡◌, refl, ◌↔◌, ◌⊎◌, inr, false, List, [], ◌∷◌, none, some, arith, length,
}
use red_mpudp.Prelude.Int.{pos, ◌≤ℤ◌, ◌<ℤ◌}
use red_mpudp.Prelude.Bytes.{codes, str_eq, any_byte}
use red_mpudp.Config.Netip.{v4, prefix}
use red_mpudp.Config.Checks.{check_iface_name}
use red_mpudp.Tun.{TunConfig, validate_name, bad_name_byte}
use red_mpudp.Tun.Device.{System, Device, read_packet, close}
use red_mpudp.Tun.Run.{
  Op, op_read, op_write, op_set_mtu, op_close, run, asks_none, run-mtu, run-close, read_packet_iff,
}
use red_mpudp.Tun.Writes.{attempts, counted, run-counted}

-- A system that counts its calls, always has the packet 69 0, and takes two bytes of each write.
abbrev system : System ℕ ℕ
system = record {
  read = λ buf w. (suc w, inr (69 ∷ 0 ∷ []));
  write = λ packet w. (suc w, (2, none));
  is_closed_error = λ e. false;
  close_file = λ w. (suc w, none);
  set_link_mtu = λ m w. (suc w, none);
  close_link = λ w. (suc w, some 7);
  ctx_error = λ w. none;
}

abbrev device : Device ℕ ℕ
device = record {
  mtu = pos 1180;
  max_packet = pos 1180;
  closed = false;
  close_err = [];
  stats = record {
    rx_packets = 0;
    rx_bytes = 0;
    rx_errors = 0;
    rx_oversize = 0;
    tx_packets = 0;
    tx_bytes = 0;
    tx_errors = 0;
    tx_short = 0;
  };
  world = 0;
}

abbrev calls : List Op
calls =
    op_write (69 ∷ 0 ∷ [])
    ∷ op_read 2048
    ∷ op_write (69 ∷ 0 ∷ 0 ∷ [])
    ∷ op_set_mtu (pos 1150) false
    ∷ op_write []
    ∷ op_close
    ∷ op_write (69 ∷ 0 ∷ [])
    ∷ []

run-mtu_example :
    (pos 1112 ≤ℤ (run system device calls).mtu)
    × ((run system device calls).mtu ≤ℤ pos 1400)
    × ((asks_none calls ≡ false) ⊎ ((run system device calls).mtu ≤ℤ device.mtu))
run-mtu_example = run-mtu system device calls (omega arith) (omega arith)

run-close_example : run system (close system device).0 calls ≡ (close system device).0
run-close_example = run-close system device calls

read_packet_iff_example : ((read_packet system device 2048).1 ≡ inr (69 ∷ 0 ∷ [])) ↔ (
    (device.closed ≡ false)
    × (device.max_packet <ℤ pos 2048)
    × (system.ctx_error device.world ≡ none)
    × ((system.read 2048 device.world).1 ≡ inr (69 ∷ 0 ∷ []))
    × (pos (length {A = ℕ} (69 ∷ 0 ∷ [])) ≤ℤ device.max_packet))
read_packet_iff_example = read_packet_iff system device 2048 (69 ∷ 0 ∷ [])

-- One write done and one short; the empty one and the one after `Close` are not counted.
run-counted_example :
    counted system (run system device calls) ≡ counted system device + attempts device.closed calls
run-counted_example = run-counted system device calls (omega arith)

two_attempts : attempts device.closed calls ≡ 2
two_attempts = refl

abbrev config : TunConfig
config = record {
  name = codes "red0";
  address = prefix (v4 167772417) 24;
  mtu = pos 1180;
  max_packet = pos 0;
}

red0_is_name : validate_name (codes "red0") ≡ none
unfolding validate_name str_eq any_byte
red0_is_name = refl

-- The name ".." passes the check of the configuration file, and `tun.Open` refuses it.
dots_disagree :
    (check_iface_name (codes "..") ≡ []) × (validate_name (codes "..") ≡ some bad_name_byte)
unfolding check_iface_name validate_name str_eq any_byte
dots_disagree = (refl, refl)

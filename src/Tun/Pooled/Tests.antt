-- ===== src/Tun/Pooled/Tests.antt =====
-- internal/tun/pooled.go at a concrete device and pool.
use red_mpudp.Prelude.{
  ℕ, suc, ◌≡◌, refl, true, false, [], ◌∷◌, inr, none, some, arith, length-replicate,
}
use red_mpudp.Prelude.Int.{pos}
use red_mpudp.Prelude.Bytes.{Str}
use red_mpudp.Packetbuf.{Pool, bytes, cap, fresh, handed_out, size_classes}
use red_mpudp.Packetbuf.Owned.{IsHeld}
use red_mpudp.Tun.Device.{System, Device, read_packet, write_packet}
use red_mpudp.Tun.Pooled.{read_into, write_from}
use red_mpudp.Tun.Pooled.Release.{ReadDone, IsReleased, read_into-Done, write_from-IsReleased}

abbrev system : System ℕ ℕ
system = record {
  read = λ buf w. (suc w, inr (69 ∷ 0 ∷ []));
  write = λ packet w. (suc w, (2, none));
  is_closed_error = λ e. false;
  close_file = λ w. (suc w, none);
  set_link_mtu = λ m w. (suc w, none);
  close_link = λ w. (suc w, none);
  ctx_error = λ w. none;
}

abbrev device : Device ℕ ℕ
device = record {
  mtu = pos 1180;
  max_packet = pos 1180;
  closed = false;
  close_err = [];
  stats = record {
    rx_packets = 0;
    rx_bytes = 0;
    rx_errors = 0;
    rx_oversize = 0;
    tx_packets = 0;
    tx_bytes = 0;
    tx_errors = 0;
    tx_short = 0;
  };
  world = 0;
}

abbrev pool : Pool
pool = record { classes = size_classes; heap = handed_out 2 1560 (fresh 1560) ∷ []; free = [] }

pool-IsHeld : IsHeld pool 0
pool-IsHeld = (omega arith, refl, refl, refl, length-replicate {A = ℕ} 1560 0)

read_into-Done_example :
    ReadDone true system 0 pool
      (read_packet system device (cap 0 pool))
      (read_into true system device 0 pool)
read_into-Done_example = read_into-Done true system device 0 pool pool-IsHeld

write_from-IsReleased_example :
    (packet : Str) × (pool' : Pool) × (bytes true 0 pool ≡ some packet)
    × (write_from true system device 0 pool
        ≡ some
            ((write_packet system device packet).0, (pool', (write_packet system device packet).1)))
    × IsReleased 0 pool pool'
write_from-IsReleased_example = write_from-IsReleased true system device 0 pool pool-IsHeld

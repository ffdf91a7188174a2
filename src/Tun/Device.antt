-- ===== src/Tun/Device.antt =====
-- internal/tun/tun_linux.go: the open device. The descriptor, the netlink connection and the context are
-- a parameter, over a state `W` of the system and its errors `E`.
use red_mpudp.Prelude.{
  ℕ, ◌+◌, ◌%◌, ◌^◌, Bool, true, List, [], ◌∷◌, Option, none, some, ◌==◌, not, if◌then◌else◌, length,
  ◌⊎◌, inl, inr,
}
use red_mpudp.Prelude.Int.{ℤ, pos, ltb_ℤ, leb_ℤ, eq_ℤ}
use red_mpudp.Prelude.Bytes.{Str}
use red_mpudp.Tun.{MtuError, guard_mtu}

-- The operations of the system: `Read` into a buffer of some length under a context, `Write` of some
-- bytes (the count, and an error), the errors of a closed file, `Close`, netlink's `setMTU` and `close`,
-- and the error of the context, if it is cancelled.
pub record System (W E : Type 0) : Type 0 where
  pub read : ℕ → W → W × (E ⊎ Str)
  pub write : Str → W → W × (ℕ × Option E)
  pub is_closed_error : E → Bool
  pub close_file : W → W × Option E
  pub set_link_mtu : ℤ → W → W × Option E
  pub close_link : W → W × Option E
  pub ctx_error : W → Option E

pub record Stats : Type 0 where
  pub rx_packets : ℕ
  pub rx_bytes : ℕ
  pub rx_errors : ℕ
  pub rx_oversize : ℕ
  pub tx_packets : ℕ
  pub tx_bytes : ℕ
  pub tx_errors : ℕ
  pub tx_short : ℕ

-- `Uint64.Add`.
abbrev pub add_64 : ℕ → ℕ → ℕ
add_64 c n = (c + n) % 2 ^ 64

-- The state of a `linuxDevice` that changes, with its bound on packets, and the system.
pub record Device (W E : Type 0) : Type 0 where
  pub mtu : ℤ
  pub max_packet : ℤ
  pub closed : Bool
  pub close_err : List E
  pub stats : Stats
  pub world : W

pub data IoError (E : Type 0) : Type 0 where
  device_closed empty_packet : IoError E
  buffer_too_small packet_too_large : ℕ → IoError E
  short_write : ℕ → IoError E
  cancelled descriptor_failed mtu_failed : E → IoError E
  mtu_refused : MtuError → IoError E

-- `errors.Join`.
abbrev pub join {ℓ} : {E : Type ℓ} → Option E → Option E → List E
join none none = []
join none (some b) = b ∷ []
join (some a) none = a ∷ []
join (some a) (some b) = a ∷ b ∷ []

module _ {W E : Type 0} (sys : System W E) where
  abbrev pub in_world : Device W E → W → Device W E
  in_world d w = record d { world = w }

  -- What a failed `Read` means, given the error of the context after it.
  unfoldable pub read_failed : Device W E → E → Option E → Device W E × (IoError E ⊎ Str)
  read_failed d e (some cause) = (d, inl (cancelled cause))
  read_failed d e none = if sys.is_closed_error e then (d, inl device_closed) else (
    record d { stats = record (d.stats) { rx_errors = add_64 d.stats.rx_errors 1 } },
    inl (descriptor_failed e),
  )

  unfoldable pub read_done : Device W E → E ⊎ Str → Device W E × (IoError E ⊎ Str)
  unfolding read_failed
  read_done d (inl e) = read_failed d e (sys.ctx_error d.world)
  read_done d (inr packet) =
      if ltb_ℤ d.max_packet (pos (length packet))
      then (
        record d { stats = record (d.stats) { rx_oversize = add_64 d.stats.rx_oversize 1 } },
        inl (packet_too_large (length packet)),
      )
      else (
        record d {
          stats = record (d.stats) {
            rx_packets = add_64 d.stats.rx_packets 1;
            rx_bytes = add_64 d.stats.rx_bytes (length packet);
          };
        },
        inr packet,
      )

  abbrev pub read_started : Device W E → ℕ → Option E → Device W E × (IoError E ⊎ Str)
  read_started d buf (some cause) = (d, inl (cancelled cause))
  read_started d buf none = let (w, r) = sys.read buf d.world in read_done (in_world d w) r

  -- `ReadPacket` into a buffer of `buf` bytes; the bytes it read, where the source gives their number.
  unfoldable pub read_packet : Device W E → ℕ → Device W E × (IoError E ⊎ Str)
  unfolding read_done
  read_packet d buf =
      if d.closed
      then (d, inl device_closed)
      else if leb_ℤ (pos buf) d.max_packet
      then (d, inl (buffer_too_small buf))
      else read_started d buf (sys.ctx_error d.world)

  -- The count that `WritePacket` returns, and its error.
  unfoldable pub write_done :
      Device W E → Str → ℕ × Option E → Device W E × (ℕ × Option (IoError E))
  write_done d packet (n, some e) = (
    record d { stats = record (d.stats) { tx_errors = add_64 d.stats.tx_errors 1 } },
    if sys.is_closed_error e then (0, some device_closed) else (n, some (descriptor_failed e)),
  )
  write_done d packet (n, none) =
      if not (n == length packet)
      then (
        record d { stats = record (d.stats) { tx_short = add_64 d.stats.tx_short 1 } },
        (n, some (short_write n)),
      )
      else (
        record d {
          stats = record (d.stats) {
            tx_packets = add_64 d.stats.tx_packets 1;
            tx_bytes = add_64 d.stats.tx_bytes n;
          };
        },
        (n, none),
      )

  unfoldable pub write_packet : Device W E → Str → Device W E × (ℕ × Option (IoError E))
  unfolding write_done
  write_packet d packet =
      if d.closed
      then (d, (0, some device_closed))
      else if length packet == 0
      then (d, (0, some empty_packet))
      else (let (w, r) = sys.write packet d.world in write_done (in_world d w) packet r)

  abbrev pub mtu_set : Device W E → ℤ → Option E → Device W E × Option (IoError E)
  mtu_set d applied (some e) = (d, some (mtu_failed e))
  mtu_set d applied none = (record d { mtu = applied }, none)

  abbrev pub mtu_guarded : Device W E → MtuError ⊎ ℤ → Device W E × Option (IoError E)
  mtu_guarded d (inl e) = (d, some (mtu_refused e))
  mtu_guarded d (inr applied) =
      if eq_ℤ applied d.mtu
      then (d, none)
      else (let (w, r) = sys.set_link_mtu applied d.world in mtu_set (in_world d w) applied r)

  unfoldable pub set_mtu : Device W E → ℤ → Bool → Device W E × Option (IoError E)
  set_mtu d mtu authenticated =
      if d.closed
      then (d, some device_closed)
      else mtu_guarded d (guard_mtu d.mtu mtu authenticated)

  -- `Close`; `closeOnce` has run exactly when the device is closed.
  unfoldable pub close : Device W E → Device W E × List E
  close d =
      if d.closed
      then (d, d.close_err)
      else (let (w, file) = sys.close_file d.world in
          let (w', link) = sys.close_link w in
          (record d { closed = true; close_err = join file link; world = w' }, join file link))

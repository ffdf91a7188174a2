-- ===== src/Tun/Writes.antt =====
-- internal/tun/tun_linux.go: the counters of `WritePacket` over sequences of calls.
use red_mpudp.Prelude.{
  ℕ, ◌+◌, ◌^◌, ◌<◌, ◌≡◌, refl, ◌⊎◌, inl, inr, Bool, true, List, [], ◌∷◌, Option, none, some, arith,
  length, ◌==◌, ◌||◌, if◌then◌else◌,
}
use red_mpudp.Prelude.Int.{ℤ}
use red_mpudp.Prelude.Bytes.{Str}
use red_mpudp.Tun.{MtuError, guard_mtu}
use red_mpudp.Tun.Device.{
  System, Device, read_failed, read_done, read_started, read_packet, write_done, write_packet,
  mtu_set, mtu_guarded, set_mtu, close, in_world,
}
use red_mpudp.Tun.Run.{Op, op_read, op_write, op_set_mtu, op_close, step, run}

-- The writes of a sequence that reach the descriptor: not empty, and before `Close`.
abbrev pub attempts : Bool → List Op → ℕ
attempts closed [] = 0
attempts closed (op_read buf ∷ ops) = attempts closed ops
attempts closed (op_write packet ∷ ops) =
    (if closed || length packet == 0 then 0 else 1) + attempts closed ops
attempts closed (op_set_mtu m authenticated ∷ ops) = attempts closed ops
attempts closed (op_close ∷ ops) = attempts true ops

module _ {W E : Type 0} (sys : System W E) where
  -- The writes that the counters tell of.
  abbrev pub counted : Device W E → ℕ
  counted d = d.stats.tx_packets + d.stats.tx_errors + d.stats.tx_short

  abbrev Keeps : Device W E → Device W E → Type 0
  Keeps d d' = (counted d' ≡ counted d) × (d'.closed ≡ d.closed)

  read_failed-Keeps : (d : Device W E) (e : E) (c : Option E) → Keeps d (read_failed sys d e c).0
  unfolding read_failed
  read_failed-Keeps d e none = ground arith
  read_failed-Keeps d e (some cause) = (refl, refl)

  read_done-Keeps : (d : Device W E) (r : E ⊎ Str) → Keeps d (read_done sys d r).0
  unfolding read_done
  read_done-Keeps d (inl e) = read_failed-Keeps d e (sys.ctx_error d.world)
  read_done-Keeps d (inr packet) = ground arith

  read_started-Keeps :
      (d : Device W E) (buf : ℕ) (c : Option E) → Keeps d (read_started sys d buf c).0
  read_started-Keeps d buf none =
      read_done-Keeps (in_world sys d (sys.read buf d.world).0) (sys.read buf d.world).1
  read_started-Keeps d buf (some cause) = (refl, refl)

  read_packet-Keeps : (d : Device W E) (buf : ℕ) → Keeps d (read_packet sys d buf).0
  unfolding read_packet
  read_packet-Keeps d buf = ground (arith, read_started-Keeps d buf (sys.ctx_error d.world))

  mtu_set-Keeps : (d : Device W E) (m : ℤ) (r : Option E) → Keeps d (mtu_set sys d m r).0
  mtu_set-Keeps d m none = (refl, refl)
  mtu_set-Keeps d m (some e) = (refl, refl)

  mtu_guarded-Keeps : (d : Device W E) (g : MtuError ⊎ ℤ) → Keeps d (mtu_guarded sys d g).0
  mtu_guarded-Keeps d (inl e) = (refl, refl)
  mtu_guarded-Keeps d (inr applied) =
      let r = sys.set_link_mtu applied d.world in
      ground (arith, mtu_set-Keeps (in_world sys d r.0) applied r.1)

  set_mtu-Keeps :
      (d : Device W E) (m : ℤ) (authenticated : Bool) → Keeps d (set_mtu sys d m authenticated).0
  unfolding set_mtu
  set_mtu-Keeps d m authenticated =
      ground (arith, mtu_guarded-Keeps d (guard_mtu d.mtu m authenticated))

  write_done_lem :
      (d : Device W E) (packet : Str) (r : ℕ × Option E)
      → counted d + 1 < 2 ^ 64
      → (counted (write_done sys d packet r).0 ≡ counted d + 1)
        × ((write_done sys d packet r).0.closed ≡ d.closed)
  unfolding write_done
  write_done_lem d packet (n, none) h = ground arith
  write_done_lem d packet (n, some e) h = ground arith

  write_packet_lem :
      (d : Device W E) (packet : Str)
      → counted d + 1 < 2 ^ 64
      → (counted (write_packet sys d packet).0
          ≡ counted d + (if d.closed || length packet == 0 then 0 else 1))
        × ((write_packet sys d packet).0.closed ≡ d.closed)
  unfolding write_packet
  write_packet_lem d packet h =
      let r = sys.write packet d.world in
      ground (arith, write_done_lem (in_world sys d r.0) packet r.1 h)

  close_lem :
      (d : Device W E) → (counted (close sys d).0 ≡ counted d) × ((close sys d).0.closed ≡ true)
  unfolding close
  close_lem d = ground arith

  -- While the counters stay below 2^64, after any sequence of calls the packets written, the failed and
  -- the short writes together are those from before and one for each write that reached the descriptor.
  pub run-counted :
      (d : Device W E) (ops : List Op)
      → counted d + attempts d.closed ops + 1 < 2 ^ 64
      → counted (run sys d ops) ≡ counted d + attempts d.closed ops
  unfolding run step
  run-counted d [] h = omega arith
  run-counted d (op_read buf ∷ ops) h =
      let (n, c) = read_packet-Keeps d buf in
      let rest = run-counted (read_packet sys d buf).0 ops (rw (n, c) h) in (rw (n, c) at rest)
  run-counted d (op_write packet ∷ ops) h =
      let (n, c) = write_packet_lem d packet (omega arith) in
      let rest = run-counted (write_packet sys d packet).0 ops (rw (n, c) (omega arith)) in
      let rest' = rw (n, c) at rest in omega arith
  run-counted d (op_set_mtu m authenticated ∷ ops) h =
      let (n, c) = set_mtu-Keeps d m authenticated in
      let rest = run-counted (set_mtu sys d m authenticated).0 ops (rw (n, c) h) in
      (rw (n, c) at rest)
  run-counted d (op_close ∷ ops) h =
      let (n, c) = close_lem d in
      let rest = run-counted (close sys d).0 ops (rw (n, c) h) in (rw (n, c) at rest)

-- ===== src/Tun/Run.antt =====
-- internal/tun/tun_linux.go: the device over sequences of calls.
use red_mpudp.Prelude.{
  ℕ, ◌≡◌, ◌≢◌, refl, ◌↔◌, ◌⊎◌, inl, inr, Bool, true, false, List, [], ◌∷◌, Option, none, some,
  arith, length, ◌&&◌, not, Bool-cases,
}
use red_mpudp.Prelude.Int.{ℤ, pos, ◌≤ℤ◌, ◌<ℤ◌}
use red_mpudp.Prelude.Bytes.{Str}
use red_mpudp.Tun.{MtuError, guard_mtu}
use red_mpudp.Tun.Settings.{guard_mtu_iff}
use red_mpudp.Tun.Device.{
  System, Device, read_failed, read_done, read_started, read_packet, write_done, write_packet,
  mtu_set, mtu_guarded, set_mtu, close, in_world,
}

pub data Op : Type 0 where
  op_read : ℕ → Op
  op_write : Str → Op
  op_set_mtu : ℤ → Bool → Op
  op_close : Op

-- No call of the sequence asks for an authenticated increase.
abbrev pub asks_none : List Op → Bool
asks_none [] = true
asks_none (op_read buf ∷ ops) = asks_none ops
asks_none (op_write packet ∷ ops) = asks_none ops
asks_none (op_set_mtu m authenticated ∷ ops) = not authenticated && asks_none ops
asks_none (op_close ∷ ops) = asks_none ops

module _ {W E : Type 0} (sys : System W E) where
  unfoldable pub step : Device W E → Op → Device W E
  step d (op_read buf) = (read_packet sys d buf).0
  step d (op_write packet) = (write_packet sys d packet).0
  step d (op_set_mtu m authenticated) = (set_mtu sys d m authenticated).0
  step d op_close = (close sys d).0

  unfoldable pub run : Device W E → List Op → Device W E
  run d [] = d
  run d (op ∷ ops) = run (step d op) ops

  -- What reading and writing leave alone.
  abbrev Keeps : Device W E → Device W E → Type 0
  Keeps d d' = (d'.mtu ≡ d.mtu) × (d'.closed ≡ d.closed)

  read_failed-Keeps : (d : Device W E) (e : E) (c : Option E) → Keeps d (read_failed sys d e c).0
  unfolding read_failed
  read_failed-Keeps d e none = ground arith
  read_failed-Keeps d e (some cause) = (refl, refl)

  read_done-Keeps : (d : Device W E) (r : E ⊎ Str) → Keeps d (read_done sys d r).0
  unfolding read_done
  read_done-Keeps d (inl e) = read_failed-Keeps d e (sys.ctx_error d.world)
  read_done-Keeps d (inr packet) = ground arith

  read_started-Keeps :
      (d : Device W E) (buf : ℕ) (c : Option E) → Keeps d (read_started sys d buf c).0
  read_started-Keeps d buf none =
      read_done-Keeps (in_world sys d (sys.read buf d.world).0) (sys.read buf d.world).1
  read_started-Keeps d buf (some cause) = (refl, refl)

  read_packet-Keeps : (d : Device W E) (buf : ℕ) → Keeps d (read_packet sys d buf).0
  unfolding read_packet
  read_packet-Keeps d buf = ground (arith, read_started-Keeps d buf (sys.ctx_error d.world))

  write_done-Keeps :
      (d : Device W E) (packet : Str) (r : ℕ × Option E) → Keeps d (write_done sys d packet r).0
  unfolding write_done
  write_done-Keeps d packet (n, none) = ground arith
  write_done-Keeps d packet (n, some e) = (refl, refl)

  write_packet-Keeps : (d : Device W E) (packet : Str) → Keeps d (write_packet sys d packet).0
  unfolding write_packet
  write_packet-Keeps d packet =
      let r = sys.write packet d.world in
      ground (arith, write_done-Keeps (in_world sys d r.0) packet r.1)

  -- An MTU that a live change may leave: in range, and no larger without authentication.
  abbrev MovesMtu : Bool → ℤ → ℤ → Type 0
  MovesMtu authenticated m m' =
      (m' ≡ m) ⊎ ((pos 1112 ≤ℤ m') × (m' ≤ℤ pos 1400) × ((m' ≤ℤ m) ⊎ (authenticated ≡ true)))

  mtu_set_lem :
      (d : Device W E) (m : ℤ) (r : Option E)
      → ((mtu_set sys d m r).0.mtu ≡ d.mtu) ⊎ ((mtu_set sys d m r).0.mtu ≡ m)
  mtu_set_lem d m none = inr refl
  mtu_set_lem d m (some e) = inl refl

  mtu_guarded_lem :
      (d : Device W E) (m : ℤ) (authenticated : Bool) (g : MtuError ⊎ ℤ)
      → guard_mtu d.mtu m authenticated ≡ g
      → MovesMtu authenticated d.mtu (mtu_guarded sys d g).0.mtu
  mtu_guarded_lem d m authenticated (inl e) h = inl refl
  mtu_guarded_lem d m authenticated (inr applied) h =
      let (same, (lo, hi), allowed) = (guard_mtu_iff d.mtu m applied authenticated).0 h in
      let r = sys.set_link_mtu applied d.world in
      let moved = mtu_set_lem (in_world sys d r.0) applied r.1 in ground arith

  set_mtu_lem :
      (d : Device W E) (m : ℤ) (authenticated : Bool)
      → MovesMtu authenticated d.mtu (set_mtu sys d m authenticated).0.mtu
  unfolding set_mtu
  set_mtu_lem d m authenticated =
      let moved = mtu_guarded_lem d m authenticated (guard_mtu d.mtu m authenticated) refl in
      ground arith

  close-mtu : (d : Device W E) → (close sys d).0.mtu ≡ d.mtu
  unfolding close
  close-mtu d = ground arith

  -- From an MTU between 1112 and 1400 every sequence of calls leaves one between 1112 and 1400, and one
  -- no larger than the first if no call asks for an authenticated increase.
  pub run-mtu :
      (d : Device W E) (ops : List Op)
      → pos 1112 ≤ℤ d.mtu
      → d.mtu ≤ℤ pos 1400
      → (pos 1112 ≤ℤ (run d ops).mtu)
        × ((run d ops).mtu ≤ℤ pos 1400)
        × ((asks_none ops ≡ false) ⊎ ((run d ops).mtu ≤ℤ d.mtu))
  unfolding run step
  run-mtu d [] lo hi = (lo, hi, inr (omega arith))
  run-mtu d (op_read buf ∷ ops) lo hi =
      let e = (read_packet-Keeps d buf).0 in
      let rest = run-mtu (read_packet sys d buf).0 ops (rw e lo) (rw e hi) in rw e at rest
  run-mtu d (op_write packet ∷ ops) lo hi =
      let e = (write_packet-Keeps d packet).0 in
      let rest = run-mtu (write_packet sys d packet).0 ops (rw e lo) (rw e hi) in rw e at rest
  run-mtu d (op_set_mtu m authenticated ∷ ops) lo hi =
      let moved = set_mtu_lem d m authenticated in
      let rest = run-mtu (set_mtu sys d m authenticated).0 ops (ground arith) (ground arith) in
      ground arith
  run-mtu d (op_close ∷ ops) lo hi =
      let e = close-mtu d in
      let rest = run-mtu (close sys d).0 ops (rw e lo) (rw e hi) in rw e at rest

  close-closed : (d : Device W E) → (close sys d).0.closed ≡ true
  unfolding close
  close-closed d = elim (Bool-cases d.closed) [ inl e ↦ simp e | inr e ↦ rw e refl ]

  step_closed : (d : Device W E) (op : Op) → d.closed ≡ true → step d op ≡ d
  unfolding step read_packet write_packet set_mtu close
  step_closed d (op_read buf) h = rw h refl
  step_closed d (op_write packet) h = rw h refl
  step_closed d (op_set_mtu m authenticated) h = rw h refl
  step_closed d op_close h = rw h refl

  run_closed : (d : Device W E) (ops : List Op) → d.closed ≡ true → run d ops ≡ d
  unfolding run
  run_closed d [] h = refl
  run_closed d (op ∷ ops) h = let e = step_closed d op h in rw e (run_closed d ops h)

  -- After `Close` no sequence of calls, further `Close` calls included, changes anything: not the
  -- counters, not the MTU, and not the system, so the descriptor is closed once and not used again.
  pub run-close : (d : Device W E) (ops : List Op) → run (close sys d).0 ops ≡ (close sys d).0
  run-close d ops = run_closed (close sys d).0 ops (close-closed d)

  read_failed_lem :
      (d : Device W E) (e : E) (c : Option E) (packet : Str)
      → (read_failed sys d e c).1 ≢ inr packet
  unfolding read_failed
  read_failed_lem d e none packet = ground arith
  read_failed_lem d e (some cause) packet = λ h. cc

  read_done_iff :
      (d : Device W E) (r : E ⊎ Str) (packet : Str)
      → ((read_done sys d r).1 ≡ inr packet)
        ↔ ((r ≡ inr packet) × (pos (length packet) ≤ℤ d.max_packet))
  unfolding read_done
  read_done_iff d (inl e) packet = (
    λ h. absurd (read_failed_lem d e (sys.ctx_error d.world) packet h),
    λ h. let p = h.0 in absurd (cc),
  )
  read_done_iff d (inr p) packet = ground arith

  read_started_iff :
      (d : Device W E) (buf : ℕ) (c : Option E) (packet : Str)
      → ((read_started sys d buf c).1 ≡ inr packet) ↔ (
          (c ≡ none)
          × ((sys.read buf d.world).1 ≡ inr packet)
          × (pos (length packet) ≤ℤ d.max_packet))
  read_started_iff d buf none packet =
      let r = sys.read buf d.world in
      let k = read_done_iff (in_world sys d r.0) r.1 packet in
      (λ h. (refl, (k.0 h).0, (k.0 h).1), λ h. k.1 (h.1, h.2))
  read_started_iff d buf (some e) packet = (λ h. absurd (cc), λ h. absurd (cc))

  -- `ReadPacket` returns a packet exactly when the device is open, the buffer is larger than the bound, the
  -- context is not cancelled, the descriptor gave just these bytes, and they are no more than the bound.
  pub read_packet_iff :
      (d : Device W E) (buf : ℕ) (packet : Str)
      → ((read_packet sys d buf).1 ≡ inr packet) ↔ (
          (d.closed ≡ false)
          × (d.max_packet <ℤ pos buf)
          × (sys.ctx_error d.world ≡ none)
          × ((sys.read buf d.world).1 ≡ inr packet)
          × (pos (length packet) ≤ℤ d.max_packet))
  unfolding read_packet
  read_packet_iff d buf packet =
      ground (arith, read_started_iff d buf (sys.ctx_error d.world) packet)

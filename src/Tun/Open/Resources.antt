-- ===== src/Tun/Open/Resources.antt =====
-- internal/tun/tun_linux.go: the descriptor and the connection that `Open` leaves open, and what it has
-- seen of the interface.
use red_mpudp.Prelude.{
  ℕ, ◌+◌, ◌-◌, ◌%◌, ◌^◌, ◌≡◌, refl, ◌∙◌, Option, none, some, ◌⊎◌, inl, inr, List, arith,
}
use red_mpudp.Prelude.Int.{ℤ}
use red_mpudp.Prelude.Bytes.{Str}
use red_mpudp.Config.Netip.{Addr, Prefix}
use red_mpudp.Tun.{TunConfig, ConfigError, validate}
use red_mpudp.Tun.Open.{
  Kernel, LinkState, AddressState, Opened, OpenError, Result, link_read, verify_link,
  addresses_read, verify_address, after_verify_address, after_verify_link, after_address,
  after_link_set, after_dial, after_lookup, after_set_iff, after_ifreq, after_open, after_validate,
  open_device, configured,
}

module _ {W E : Type 0} (sys : Kernel W E) (fds conns : W → ℕ) where
  -- A step leaves the open descriptors and connections as they are.
  abbrev Same : W → W → Type 0
  Same w w' = (fds w' ≡ fds w) × (conns w' ≡ conns w)

  abbrev pub OpensFd : W → W × (E ⊎ ℕ) → Type 0
  OpensFd w (w', inl e) = Same w w'
  OpensFd w (w', inr fd) = (fds w' ≡ fds w + 1) × (conns w' ≡ conns w)

  abbrev pub OpensConn : W → W × Option E → Type 0
  OpensConn w (w', some e) = Same w w'
  OpensConn w (w', none) = (fds w' ≡ fds w) × (conns w' ≡ conns w + 1)

  -- What the numbers of open descriptors and connections are: an `Open` and a `Dial` that go well add one,
  -- a close takes one away, and nothing else changes them.
  pub record Counts : Type 0 where
    pub on_open : (w : W) → OpensFd w (sys.open_tun w)
    pub on_set_iff : (fd : ℕ) (name : Str) (w : W) → Same w (sys.set_iff fd name w).0
    pub on_lookup : (name : Str) (w : W) → Same w (sys.interface_by_name name w).0
    pub on_dial : (w : W) → OpensConn w (sys.dial w)
    pub on_link_set : (i m : ℕ) (w : W) → Same w (sys.link_set i m w).0
    pub on_address_new : (i : ℕ) (a : Addr) (n : ℕ) (w : W) → Same w (sys.address_new i a n w).0
    pub on_link_get : (i : ℕ) (w : W) → Same w (sys.link_get i w).0
    pub on_address_list : (w : W) → Same w (sys.address_list w).0
    pub on_close_rtnl :
        (w : W) → (fds (sys.close_rtnl w) ≡ fds w) × (conns (sys.close_rtnl w) ≡ conns w - 1)
    pub on_close_fd :
        (fd : ℕ) (w : W)
        → (fds (sys.close_fd fd w) ≡ fds w - 1) × (conns (sys.close_fd fd w) ≡ conns w)

  -- The numbers after `Open`, from those before it.
  abbrev pub Leaves : ℕ → ℕ → Result sys → Type 0
  Leaves f c (w, inl e) = (fds w ≡ f) × (conns w ≡ c)
  Leaves f c (w, inr d) = (fds w ≡ f + 1) × (conns w ≡ c + 1)

  module _ (counts : Counts) (f c : ℕ) where
    -- One descriptor is open, and a connection or none.
    abbrev Has : ℕ → W → Type 0
    Has n w = (fds w ≡ f + 1) × (conns w ≡ c + n)

    fail_lem :
        (fd : ℕ) (w : W) → Has 0 w → (fds (sys.close_fd fd w) ≡ f) × (conns (sys.close_fd fd w) ≡ c)
    fail_lem fd w h = let (a, b) = counts.on_close_fd fd w in (omega arith, omega arith)

    fail_nl_lem :
        (fd : ℕ) (w : W)
        → Has 1 w
        → (fds (sys.close_fd fd (sys.close_rtnl w)) ≡ f)
          × (conns (sys.close_fd fd (sys.close_rtnl w)) ≡ c)
    fail_nl_lem fd w h =
        let (a, b) = counts.on_close_rtnl w in
        fail_lem fd (sys.close_rtnl w) (omega arith, omega arith)

    Has-Same : (n : ℕ) (w w' : W) → Same w w' → Has n w → Has n w'
    Has-Same n w w' (a, b) (h, k) = (a ∙ h, b ∙ k)

    after_verify_address-Leaves :
        (d : Opened) (r : W × Option (OpenError E))
        → Has 1 r.0
        → Leaves f c (after_verify_address sys d r)
    after_verify_address-Leaves d (w, some e) h = fail_nl_lem d.fd w h
    after_verify_address-Leaves d (w, none) h = h

    verify_address-Same : (i : ℕ) (p : Prefix) (w : W) → Same w (verify_address sys i p w).0
    unfolding verify_address
    verify_address-Same i p w = read_same (sys.address_list w) (counts.on_address_list w)
      where
        read_same :
            (r : W × (E ⊎ List AddressState)) → Same w r.0 → Same w (addresses_read sys i p r).0
        read_same (v, inl e) s = s
        read_same (v, inr l) s = s

    verify_link-Same : (i : ℕ) (m : ℤ) (w : W) → Same w (verify_link sys i m w).0
    unfolding verify_link
    verify_link-Same i m w =
        read_same (sys.link_get (i % 2 ^ 32) w) (counts.on_link_get (i % 2 ^ 32) w)
      where
        read_same : (r : W × (E ⊎ LinkState)) → Same w r.0 → Same w (link_read sys m r).0
        read_same (v, inl e) s = s
        read_same (v, inr l) s = ground arith

    after_verify_link-Leaves :
        (d : Opened) (r : W × Option (OpenError E))
        → Has 1 r.0
        → Leaves f c (after_verify_link sys d r)
    after_verify_link-Leaves d (w, some e) h = fail_nl_lem d.fd w h
    after_verify_link-Leaves d (w, none) h =
        let v = verify_address sys d.index d.address w in
        after_verify_address-Leaves d v
          (Has-Same 1 w v.0 (verify_address-Same d.index d.address w) h)

    after_address-Leaves :
        (d : Opened) (r : W × Option E) → Has 1 r.0 → Leaves f c (after_address sys d r)
    after_address-Leaves d (w, some e) h = fail_nl_lem d.fd w h
    after_address-Leaves d (w, none) h =
        let v = verify_link sys d.index d.mtu w in
        after_verify_link-Leaves d v (Has-Same 1 w v.0 (verify_link-Same d.index d.mtu w) h)

    after_link_set-Leaves :
        (d : Opened) (r : W × Option E) → Has 1 r.0 → Leaves f c (after_link_set sys d r)
    after_link_set-Leaves d (w, some e) h = fail_nl_lem d.fd w h
    after_link_set-Leaves d (w, none) h =
        after_address-Leaves d (sys.address_new _ _ _ w)
          (Has-Same 1 w (sys.address_new _ _ _ w).0 (counts.on_address_new _ _ _ w) h)

    after_dial-Leaves :
        (d : Opened) (w : W) (r : W × Option E)
        → Has 0 w
        → OpensConn w r
        → Leaves f c (after_dial sys d r)
    after_dial-Leaves d w (v, some e) h (a, b) = fail_lem d.fd v (a ∙ h.0, b ∙ h.1)
    after_dial-Leaves d w (v, none) h (a, b) =
        after_link_set-Leaves d (sys.link_set _ _ v) (
          Has-Same 1 v (sys.link_set _ _ v).0 (counts.on_link_set _ _ v) (omega arith, omega arith))

    after_lookup-Leaves :
        (cfg : TunConfig) (fd : ℕ) (name : Str) (r : W × (E ⊎ ℕ))
        → Has 0 r.0
        → Leaves f c (after_lookup sys cfg fd name r)
    after_lookup-Leaves cfg fd name (w, inl e) h = fail_lem fd w h
    after_lookup-Leaves cfg fd name (w, inr index) h =
        after_dial-Leaves (configured cfg fd name index) w (sys.dial w) h (counts.on_dial w)

    after_set_iff-Leaves :
        (cfg : TunConfig) (fd : ℕ) (r : W × (E ⊎ Str))
        → Has 0 r.0
        → Leaves f c (after_set_iff sys cfg fd r)
    after_set_iff-Leaves cfg fd (w, inl e) h = fail_lem fd w h
    after_set_iff-Leaves cfg fd (w, inr name) h =
        after_lookup-Leaves cfg fd name (sys.interface_by_name name w)
          (Has-Same 0 w (sys.interface_by_name name w).0 (counts.on_lookup name w) h)

    after_ifreq-Leaves :
        (cfg : TunConfig) (fd : ℕ) (w : W) (o : Option E)
        → Has 0 w
        → Leaves f c (after_ifreq sys cfg fd w o)
    after_ifreq-Leaves cfg fd w (some e) h = fail_lem fd w h
    after_ifreq-Leaves cfg fd w none h =
        after_set_iff-Leaves cfg fd (sys.set_iff fd cfg.name w)
          (Has-Same 0 w (sys.set_iff fd cfg.name w).0 (counts.on_set_iff fd cfg.name w) h)

  after_open-Leaves :
      (counts : Counts) (cfg : TunConfig) (w : W) (r : W × (E ⊎ ℕ))
      → OpensFd w r
      → Leaves (fds w) (conns w) (after_open sys cfg r)
  after_open-Leaves counts cfg w (v, inl e) h = h
  after_open-Leaves counts cfg w (v, inr fd) (a, b) =
      after_ifreq-Leaves counts (fds w) (conns w) cfg fd v (sys.new_ifreq cfg.name) (a, omega arith)

  after_validate-Leaves :
      (counts : Counts) (cfg : TunConfig) (w : W) (o : Option ConfigError)
      → Leaves (fds w) (conns w) (after_validate sys cfg w o)
  after_validate-Leaves counts cfg w (some e) = (refl, refl)
  after_validate-Leaves counts cfg w none =
      after_open-Leaves counts cfg w (sys.open_tun w) (counts.on_open w)

  -- Where a system call that opens adds one to the open descriptors or connections, a close takes one away,
  -- and the other calls leave them alone: `Open` that fails, at whatever step, leaves as many descriptors
  -- and connections open as there were, and `Open` that goes well one more of each.
  pub open_device-Leaves :
      Counts → (cfg : TunConfig) (w : W) → Leaves (fds w) (conns w) (open_device sys cfg w)
  unfolding open_device
  open_device-Leaves counts cfg w = after_validate-Leaves counts cfg w (validate cfg)

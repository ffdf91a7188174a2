-- ===== src/Tun/Open/Verified.antt =====
-- internal/tun/tun_linux.go: the interface that `Open` returns, and the calls that lead to it.
use mathlib.Core.Path.{subst}
use red_mpudp.Prelude.{
  ℕ, ◌%◌, ◌^◌, ◌≡◌, refl, ap, true, Bool-cases, Option, none, some, ◌⊎◌, inl, inr, List, arith,
}
use red_mpudp.Prelude.Int.{ℤ, pos_part}
use red_mpudp.Prelude.Bytes.{Str}
use red_mpudp.Config.Netip.{Prefix, prefix_addr}
use red_mpudp.Tun.{TunConfig, ConfigError, validate}
use red_mpudp.Tun.Settings.{IsTunConfig, validate_tun_iff}
use red_mpudp.Tun.Open.{
  Kernel, LinkState, AddressState, Opened, OpenError, link_read, verify_link, addresses_read,
  verify_address, after_verify_address, after_verify_link, after_address, after_link_set,
  after_dial, after_lookup, after_set_iff, after_ifreq, after_open, after_validate, open_device,
  configured, has_mtu, any_address, prefix_bits, Result,
}

module _ {W E : Type 0} (sys : Kernel W E) where
  -- In the state `w` netlink says that the link has this MTU and is up, which leaves the state `v`.
  abbrev LinkSeen : ℕ → ℤ → W → W → Type 0
  LinkSeen index mtu w v =
      (link : LinkState) × (sys.link_get (index % 2 ^ 32) w ≡ (v, inr link))
      × (has_mtu link.link_mtu mtu ≡ true)
      × (link.up ≡ true)

  -- In the state `w` netlink lists this address at this interface, which leaves the state `v`.
  abbrev AddressSeen : ℕ → Prefix → W → W → Type 0
  AddressSeen index want w v =
      (addrs : List AddressState) × (sys.address_list w ≡ (v, inr addrs))
      × (any_address index want addrs ≡ true)

  -- The address is added in the state `w`, and only then the link and the address are read back.
  abbrev AddressedFrom : ℕ → TunConfig → W → W → Type 0
  AddressedFrom index c w v =
      (w1 : W) × (w2 : W) × (sys.address_new (index % 2 ^ 32) (prefix_addr c.address)
          (prefix_bits c.address % 2 ^ 8) w
        ≡ (w1, none))
      × LinkSeen index c.mtu w1 w2
      × AddressSeen index c.address w2 v

  -- Before that the link is given its MTU and brought up, over a connection dialled in the state `w`.
  abbrev LinkedFrom : ℕ → TunConfig → W → W → Type 0
  LinkedFrom index c w v =
      (w1 : W) × (w2 : W) × (sys.dial w ≡ (w1, none))
      × (sys.link_set (index % 2 ^ 32) (pos_part c.mtu % 2 ^ 32) w1 ≡ (w2, none))
      × AddressedFrom index c w2 v

  -- From the state `w` to the state `v` each call of `Open` succeeds, in the order of the source: the
  -- descriptor, the name and the index are those that these calls give.
  abbrev pub IsAsked : TunConfig → W → W → Opened → Type 0
  IsAsked c w v d =
      (w1 : W) × (w2 : W) × (w3 : W) × (sys.open_tun w ≡ (w1, inr d.fd))
      × (sys.new_ifreq c.name ≡ none)
      × (sys.set_iff d.fd c.name w1 ≡ (w2, inr d.name))
      × (sys.interface_by_name d.name w2 ≡ (w3, inr d.index))
      × LinkedFrom d.index c w3 v
      × (d ≡ configured c d.fd d.name d.index)

  not_failed :
      {w v : W} {e : OpenError E} {d : Opened} → ◌≡◌ {A = Result sys} (w, inl e) (v, inr d) → ⊥
  not_failed h = let k = ap (λ q. q.1) h in cc

  verify_link-none :
      (index : ℕ) (mtu : ℤ) (w : W)
      → (verify_link sys index mtu w).1 ≡ none
      → LinkSeen index mtu w (verify_link sys index mtu w).0
  unfolding verify_link
  verify_link-none index mtu w h = read_none (sys.link_get (index % 2 ^ 32) w) h
    where
      read_none :
          (r : W × (E ⊎ LinkState))
          → (link_read sys mtu r).1 ≡ none
          → (link : LinkState) × (r ≡ ((link_read sys mtu r).0, inr link))
            × (has_mtu link.link_mtu mtu ≡ true)
            × (link.up ≡ true)
      read_none (u, inl e) k = absurd (cc)
      read_none (u, inr link) k = elim (Bool-cases (has_mtu link.link_mtu mtu)) [
        | inr a ↦ absurd (cc (rw a at k))
        | inl a ↦ elim (Bool-cases link.up) [
          | inr b ↦ absurd (cc (rw (a, b) at k))
          | inl b ↦ (link, rw (a, b) refl, a, b)
        ]
      ]

  verify_address-none :
      (index : ℕ) (want : Prefix) (w : W)
      → (verify_address sys index want w).1 ≡ none
      → AddressSeen index want w (verify_address sys index want w).0
  unfolding verify_address
  verify_address-none index want w h = read_none (sys.address_list w) h
    where
      read_none :
          (r : W × (E ⊎ List AddressState))
          → (addresses_read sys index want r).1 ≡ none
          → (addrs : List AddressState) × (r ≡ ((addresses_read sys index want r).0, inr addrs))
            × (any_address index want addrs ≡ true)
      read_none (u, inl e) k = absurd (cc)
      read_none (u, inr addrs) k = (addrs, refl, ground arith)

  after_verify_address_ok :
      (d x : Opened) (v : W) (r : W × Option (OpenError E))
      → after_verify_address sys d r ≡ (v, inr x)
      → (r.1 ≡ none) × (r.0 ≡ v) × (d ≡ x)
  after_verify_address_ok d x v (w, some e) h = absurd (not_failed h)
  after_verify_address_ok d x v (w, none) h = let k = ap (λ q. q.1) h in (refl, ap (λ q. q.0) h, cc)

  after_verify_link_ok :
      (d x : Opened) (v : W) (r : W × Option (OpenError E))
      → after_verify_link sys d r ≡ (v, inr x)
      → (r.1 ≡ none) × AddressSeen d.index d.address r.0 v × (d ≡ x)
  after_verify_link_ok d x v (w, some e) h = absurd (not_failed h)
  after_verify_link_ok d x v (w, none) h =
      let (ok, end, same) =
        after_verify_address_ok d x v (verify_address sys d.index d.address w) h in
      (
        refl,
        subst (AddressSeen d.index d.address w) end (verify_address-none d.index d.address w ok),
        same,
      )

  after_address_ok :
      (c : TunConfig) (fd : ℕ) (name : Str) (index : ℕ) (x : Opened) (v : W) (r : W × Option E)
      → after_address sys (configured c fd name index) r ≡ (v, inr x)
      → (w1 : W) × (w2 : W) × (r ≡ (w1, none))
        × LinkSeen index c.mtu w1 w2
        × AddressSeen index c.address w2 v
        × (configured c fd name index ≡ x)
  after_address_ok c fd name index x v (w, some e) h = absurd (not_failed h)
  after_address_ok c fd name index x v (w, none) h =
      let (ok, addr, same) =
        after_verify_link_ok (configured c fd name index) x v (verify_link sys index c.mtu w) h in
      (w, (verify_link sys index c.mtu w).0, refl, verify_link-none index c.mtu w ok, addr, same)

  after_link_set_ok :
      (c : TunConfig) (fd : ℕ) (name : Str) (index : ℕ) (x : Opened) (v : W) (r : W × Option E)
      → after_link_set sys (configured c fd name index) r ≡ (v, inr x)
      → (w1 : W) × (r ≡ (w1, none)) × AddressedFrom index c w1 v × (configured c fd name index ≡ x)
  after_link_set_ok c fd name index x v (w, some e) h = absurd (not_failed h)
  after_link_set_ok c fd name index x v (w, none) h =
      let (w1, w2, done, link, addr, same) =
        after_address_ok c fd name index x v (sys.address_new _ _ _ w) h in
      (w, refl, (w1, w2, done, link, addr), same)

  after_dial_ok :
      (c : TunConfig) (fd : ℕ) (name : Str) (index : ℕ) (x : Opened) (v : W) (r : W × Option E)
      → after_dial sys (configured c fd name index) r ≡ (v, inr x)
      → (w1 : W) × (w2 : W) × (r ≡ (w1, none))
        × (sys.link_set (index % 2 ^ 32) (pos_part c.mtu % 2 ^ 32) w1 ≡ (w2, none))
        × AddressedFrom index c w2 v
        × (configured c fd name index ≡ x)
  after_dial_ok c fd name index x v (w, some e) h = absurd (not_failed h)
  after_dial_ok c fd name index x v (w, none) h =
      let (w2, done, rest, same) = after_link_set_ok c fd name index x v (sys.link_set _ _ w) h in
      (w, w2, refl, done, rest, same)

  after_lookup_ok :
      (c : TunConfig) (fd : ℕ) (name : Str) (x : Opened) (v : W) (r : W × (E ⊎ ℕ))
      → after_lookup sys c fd name r ≡ (v, inr x)
      → (w3 : W) × (index : ℕ) × (r ≡ (w3, inr index))
        × LinkedFrom index c w3 v
        × (configured c fd name index ≡ x)
  after_lookup_ok c fd name x v (w, inl e) h = absurd (not_failed h)
  after_lookup_ok c fd name x v (w, inr index) h =
      let (w1, w2, dialled, set, rest, same) = after_dial_ok c fd name index x v (sys.dial w) h in
      (w, index, refl, (w1, w2, dialled, set, rest), same)

  after_set_iff_ok :
      (c : TunConfig) (fd : ℕ) (x : Opened) (v : W) (r : W × (E ⊎ Str))
      → after_set_iff sys c fd r ≡ (v, inr x)
      → (w2 : W) × (w3 : W) × (name : Str) × (index : ℕ) × (r ≡ (w2, inr name))
        × (sys.interface_by_name name w2 ≡ (w3, inr index))
        × LinkedFrom index c w3 v
        × (configured c fd name index ≡ x)
  after_set_iff_ok c fd x v (w, inl e) h = absurd (not_failed h)
  after_set_iff_ok c fd x v (w, inr name) h =
      let (w3, index, found, rest, same) =
        after_lookup_ok c fd name x v (sys.interface_by_name name w) h in
      (w, w3, name, index, refl, found, rest, same)

  after_ifreq_ok :
      (c : TunConfig) (fd : ℕ) (x : Opened) (v w : W) (o : Option E)
      → after_ifreq sys c fd w o ≡ (v, inr x)
      → (o ≡ none) × (after_set_iff sys c fd (sys.set_iff fd c.name w) ≡ (v, inr x))
  after_ifreq_ok c fd x v w (some e) h = absurd (not_failed h)
  after_ifreq_ok c fd x v w none h = (refl, h)

  after_open_ok :
      (c : TunConfig) (x : Opened) (v w : W) (r : W × (E ⊎ ℕ))
      → sys.open_tun w ≡ r
      → after_open sys c r ≡ (v, inr x)
      → IsAsked c w v x
  after_open_ok c x v w (w1, inl e) opened h = absurd (not_failed h)
  after_open_ok c x v w (w1, inr fd) opened h =
      let (fits, k) = after_ifreq_ok c fd x v w1 (sys.new_ifreq c.name) h in
      let (w2, w3, name, index, named, found, rest, same) =
        after_set_iff_ok c fd x v (sys.set_iff fd c.name w1) k in
      subst (IsAsked c w v) same (w1, w2, w3, opened, fits, named, found, rest, refl)

  after_validate_ok :
      (c : TunConfig) (x : Opened) (v w : W) (o : Option ConfigError)
      → after_validate sys c w o ≡ (v, inr x)
      → (o ≡ none) × IsAsked c w v x
  after_validate_ok c x v w (some e) h = absurd (not_failed h)
  after_validate_ok c x v w none h = (refl, after_open_ok c x v w (sys.open_tun w) refl h)

  -- When `Open` returns an interface, the configuration is valid, and each call of the run succeeded, one in
  -- the state that the one before left: the descriptor, the name and the index are those the kernel gave,
  -- the MTU and the address those of the configuration; the link was set and the address added; and netlink
  -- then said, in the state after that, that the link has the MTU and is up, and in the state after that
  -- answer listed the address, which left the state at the end.
  pub open_device-IsAsked :
      (c : TunConfig) (w v : W) (d : Opened)
      → open_device sys c w ≡ (v, inr d)
      → IsTunConfig c × IsAsked c w v d
  unfolding open_device
  open_device-IsAsked c w v d h =
      let (ok, asked) = after_validate_ok c d v w (validate c) h in
      ((validate_tun_iff c).0 ok, asked)

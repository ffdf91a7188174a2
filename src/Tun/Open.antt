-- ===== src/Tun/Open.antt =====
-- internal/tun/tun_linux.go: `Open`, `verifyLink` and `verifyAddress`. The system calls, the netlink
-- connection and the lookup of an interface are parameters, over a state `W` and with errors `E`.
pub mod Resources
pub mod Verified
pub mod Tests
use red_mpudp.Prelude.{
  ℕ, ◌%◌, ◌^◌, Bool, true, false, ◌==◌, ◌&&◌, not, if◌then◌else◌, List, [], ◌∷◌, Option, none, some,
  ◌⊎◌, inl, inr,
}
use red_mpudp.Prelude.Int.{ℤ, pos_part, pos, eq_ℤ}
use red_mpudp.Prelude.Bytes.{Str}
use red_mpudp.Config.Netip.{Addr, Prefix, prefix, no_prefix, prefix_addr, addr_eq, unmap}
use red_mpudp.Tun.{TunConfig, ConfigError, validate, packet_bound}

-- What netlink says of a link: the MTU, unless its attributes are nil, and whether it is up.
pub record LinkState : Type 0 where
  pub link_mtu : Option ℕ
  pub up : Bool

-- What netlink says of an address: none when its attributes are nil or are no address.
pub record AddressState : Type 0 where
  pub index : ℕ
  pub address : Option Addr
  pub prefix_length : ℕ

-- `Open` of /dev/net/tun gives a descriptor; `NewIfreq` checks a name; the ioctl TUNSETIFF gives the name of
-- the interface, and `InterfaceByName` its index; `Dial` makes the netlink connection, `Link.Set` sets the
-- MTU of a link and brings it up, `Address.New` adds an address; `Link.Get` and `Address.List` read back.
pub record Kernel (W E : Type 0) : Type 0 where
  pub open_tun : W → W × (E ⊎ ℕ)
  pub new_ifreq : Str → Option E
  pub set_iff : ℕ → Str → W → W × (E ⊎ Str)
  pub interface_by_name : Str → W → W × (E ⊎ ℕ)
  pub dial : W → W × Option E
  pub link_set : ℕ → ℕ → W → W × Option E
  pub address_new : ℕ → Addr → ℕ → W → W × Option E
  pub link_get : ℕ → W → W × (E ⊎ LinkState)
  pub address_list : W → W × (E ⊎ List AddressState)
  pub close_rtnl : W → W
  pub close_fd : ℕ → W → W

-- What `Open` returns, with the descriptor.
pub record Opened : Type 0 where
  pub fd : ℕ
  pub name : Str
  pub index : ℕ
  pub address : Prefix
  pub mtu : ℤ
  pub max_packet : ℤ

abbrev pub configured : TunConfig → ℕ → Str → ℕ → Opened
configured c fd name index = record {
  fd = fd;
  name = name;
  index = index;
  address = c.address;
  mtu = c.mtu;
  max_packet = packet_bound c;
}

pub data OpenError (E : Type 0) : Type 0 where
  invalid : ConfigError → OpenError E
  system : E → OpenError E
  mtu_differs not_up address_missing : OpenError E

-- `Bits`, -1 of the zero prefix, which `validate` has turned away.
abbrev pub prefix_bits : Prefix → ℕ
prefix_bits no_prefix = 0
prefix_bits (prefix a n) = n

abbrev pub has_mtu : Option ℕ → ℤ → Bool
has_mtu none mtu = false
has_mtu (some m) mtu = eq_ℤ (pos m) mtu

abbrev pub has_addr : Option Addr → Addr → Bool
has_addr none want = false
has_addr (some got) want = addr_eq (unmap got) want

abbrev pub is_address : ℕ → Prefix → AddressState → Bool
is_address index want a =
    a.index == index
    && (has_addr a.address (prefix_addr want) && a.prefix_length == prefix_bits want)

unfoldable pub any_address : ℕ → Prefix → List AddressState → Bool
any_address index want [] = false
any_address index want (a ∷ addrs) =
    if is_address index want a then true else any_address index want addrs

module _ {W E : Type 0} (sys : Kernel W E) where
  abbrev Failing : Type 0
  Failing = W × Option (OpenError E)

  abbrev pub Result : Type 0
  Result = W × (OpenError E ⊎ Opened)

  abbrev pub link_read : ℤ → W × (E ⊎ LinkState) → Failing
  link_read mtu (w, inl e) = (w, some (system e))
  link_read mtu (w, inr link) =
      if not (has_mtu link.link_mtu mtu)
      then (w, some mtu_differs)
      else if not link.up
      then (w, some not_up)
      else (w, none)

  unfoldable pub verify_link : ℕ → ℤ → W → Failing
  verify_link index mtu w = link_read mtu (sys.link_get (index % 2 ^ 32) w)

  abbrev pub addresses_read : ℕ → Prefix → W × (E ⊎ List AddressState) → Failing
  addresses_read index want (w, inl e) = (w, some (system e))
  addresses_read index want (w, inr addrs) =
      (w, if any_address index want addrs then none else some address_missing)

  unfoldable pub verify_address : ℕ → Prefix → W → Failing
  verify_address index want w = addresses_read index want (sys.address_list w)

  -- `fail` and `failNL`.
  abbrev pub fail : ℕ → W → OpenError E → Result
  fail fd w e = (sys.close_fd fd w, inl e)

  abbrev pub fail_nl : ℕ → W → OpenError E → Result
  fail_nl fd w e = (sys.close_fd fd (sys.close_rtnl w), inl e)

  abbrev pub after_verify_address : Opened → Failing → Result
  after_verify_address d (w, some e) = fail_nl d.fd w e
  after_verify_address d (w, none) = (w, inr d)

  abbrev pub after_verify_link : Opened → Failing → Result
  after_verify_link d (w, some e) = fail_nl d.fd w e
  after_verify_link d (w, none) = after_verify_address d (verify_address d.index d.address w)

  abbrev pub after_address : Opened → W × Option E → Result
  after_address d (w, some e) = fail_nl d.fd w (system e)
  after_address d (w, none) = after_verify_link d (verify_link d.index d.mtu w)

  abbrev pub after_link_set : Opened → W × Option E → Result
  after_link_set d (w, some e) = fail_nl d.fd w (system e)
  after_link_set d (w, none) =
      after_address d (
        sys.address_new (d.index % 2 ^ 32) (prefix_addr d.address) (prefix_bits d.address % 2 ^ 8)
          w)

  abbrev pub after_dial : Opened → W × Option E → Result
  after_dial d (w, some e) = fail d.fd w (system e)
  after_dial d (w, none) =
      after_link_set d (sys.link_set (d.index % 2 ^ 32) (pos_part d.mtu % 2 ^ 32) w)

  abbrev pub after_lookup : TunConfig → ℕ → Str → W × (E ⊎ ℕ) → Result
  after_lookup c fd name (w, inl e) = fail fd w (system e)
  after_lookup c fd name (w, inr index) = after_dial (configured c fd name index) (sys.dial w)

  abbrev pub after_set_iff : TunConfig → ℕ → W × (E ⊎ Str) → Result
  after_set_iff c fd (w, inl e) = fail fd w (system e)
  after_set_iff c fd (w, inr name) = after_lookup c fd name (sys.interface_by_name name w)

  abbrev pub after_ifreq : TunConfig → ℕ → W → Option E → Result
  after_ifreq c fd w (some e) = fail fd w (system e)
  after_ifreq c fd w none = after_set_iff c fd (sys.set_iff fd c.name w)

  abbrev pub after_open : TunConfig → W × (E ⊎ ℕ) → Result
  after_open c (w, inl e) = (w, inl (system e))
  after_open c (w, inr fd) = after_ifreq c fd w (sys.new_ifreq c.name)

  abbrev pub after_validate : TunConfig → W → Option ConfigError → Result
  after_validate c w (some e) = (w, inl (invalid e))
  after_validate c w none = after_open c (sys.open_tun w)

  unfoldable pub open_device : TunConfig → W → Result
  open_device c w = after_validate c w (validate c)

-- ===== src/Tun/Settings.antt =====
-- internal/tun/tun.go: `validate`, `validateName` and `guardMTU` against the values they are to accept.
use red_mpudp.Prelude.{
  ◌≤◌, ◌≡◌, ◌≢◌, refl, ◌↔◌, ◌⊎◌, inr, Bool, true, false, [], ◌∷◌, Option, none, some, arith, length,
  ◌||◌, not, if◌then◌else◌,
}
use red_mpudp.Prelude.Int.{ℤ, pos, ◌≤ℤ◌}
use red_mpudp.Prelude.Bytes.{Str, codes, str_eq, str_eq_iff, any_byte}
use red_mpudp.Config.Netip.{Prefix, no_prefix, prefix, is4, is_valid_prefix, prefix_addr}
use red_mpudp.Config.Checks.{check_iface_name, is_bad_name_byte}
use red_mpudp.Config.Checks.Bounds.{check_iface_name_iff}
use red_mpudp.Tun.{
  TunConfig, ConfigError, is_bad_byte, validate_name, validate_rest, validate, guard_mtu,
  after_name,
}

-- A name the kernel keeps as it is.
abbrev pub IsName : Str → Type 0
IsName s =
    (s ≢ [])
    × (length s ≤ 15)
    × (any_byte is_bad_byte s ≡ false)
    × (s ≢ codes ".")
    × (s ≢ codes "..")

validate_name_iff : (s : Str) → (validate_name s ≡ none) ↔ IsName s
unfolding validate_name
validate_name_iff s =
    ground (arith, str_eq_iff s [], str_eq_iff s (codes "."), str_eq_iff s (codes ".."))

-- A configuration with an IPv4 address, an MTU in range and an optional name and bound.
abbrev pub IsTunConfig : TunConfig → Type 0
IsTunConfig c =
    ((c.name ≡ []) ⊎ IsName c.name)
    × ((pos 1112 ≤ℤ c.mtu) × (c.mtu ≤ℤ pos 1400))
    × (is4 (prefix_addr c.address) ≡ true)
    × (pos 0 ≤ℤ c.max_packet)

prefix_iff :
    (p : Prefix)
    → ((not (is_valid_prefix p) || not (is4 (prefix_addr p))) ≡ false)
      ↔ (is4 (prefix_addr p) ≡ true)
prefix_iff no_prefix = ground arith
prefix_iff (prefix a n) = ground arith

validate_rest_iff :
    (c : TunConfig)
    → (validate_rest c ≡ none) ↔ (
        ((pos 1112 ≤ℤ c.mtu) × (c.mtu ≤ℤ pos 1400))
        × (is4 (prefix_addr c.address) ≡ true)
        × (pos 0 ≤ℤ c.max_packet))
unfolding validate_rest
validate_rest_iff c = ground (arith, prefix_iff c.address)

after_name_iff :
    (e : Option ConfigError) (c : TunConfig)
    → (after_name e c ≡ none) ↔ ((e ≡ none) × (validate_rest c ≡ none))
after_name_iff none c = (λ h. (refl, h), λ h. h.1)
after_name_iff (some e) c = (λ h. absurd (cc), λ h. absurd (cc))

-- `validate` accepts exactly the configurations with an IPv4 address, an MTU from 1112 to 1400, a packet
-- bound that is not negative, and no name or one that the kernel keeps.
pub validate_tun_iff : (c : TunConfig) → (validate c ≡ none) ↔ IsTunConfig c
unfolding validate
validate_tun_iff c =
    let a = after_name_iff (if not (str_eq c.name []) then validate_name c.name else none) c in
    let r = validate_rest_iff c in
    let n : ((if not (str_eq c.name []) then validate_name c.name else none) ≡ none)
        ↔ ((c.name ≡ []) ⊎ IsName c.name) =
      ground (arith, str_eq_iff c.name [], validate_name_iff c.name) in
    (
      λ h. let p = a.0 h in (n.0 p.0, (r.0 p.1).0, (r.0 p.1).1, (r.0 p.1).2),
      λ h. a.1 (n.1 h.0, r.1 (h.1, h.2, h.3)),
    )

fewer_bad_bytes : (s : Str) → any_byte is_bad_byte s ≡ false → any_byte is_bad_name_byte s ≡ false
unfolding any_byte
fewer_bad_bytes [] h = refl
fewer_bad_bytes (b ∷ s) h = ground (arith, fewer_bad_bytes s)

-- Each name that `tun.Open` accepts passes the check of the configuration file.
pub validate_name-check_iface_name : (s : Str) → validate_name s ≡ none → check_iface_name s ≡ []
validate_name-check_iface_name s h =
    let n = (validate_name_iff s).0 h in
    (check_iface_name_iff s).1 (n.0, n.1, fewer_bad_bytes s n.2)

-- `guardMTU` allows a change to `target` exactly when `target` is from 1112 to 1400 and no larger than
-- the current MTU unless the increase is authenticated; it then gives `target`, and nothing else.
pub guard_mtu_iff :
    (current target m : ℤ) (authenticated : Bool)
    → (guard_mtu current target authenticated ≡ inr m) ↔ (
        (m ≡ target)
        × ((pos 1112 ≤ℤ target) × (target ≤ℤ pos 1400))
        × ((target ≤ℤ current) ⊎ (authenticated ≡ true)))
unfolding guard_mtu
guard_mtu_iff current target m authenticated = ground arith

-- ===== src/Config/Client/Defaults.antt =====
-- internal/config/client.go, `applyDefaults`.
use red_mpudp.Prelude.{ℕ, ◌≡◌, arith, []}
use red_mpudp.Prelude.Int.{ℤ}
use red_mpudp.Prelude.Bytes.{Str, str_eq_iff}
use red_mpudp.Config.Types.{Client}
use red_mpudp.Config.Client.{or_default, or_default_nat, or_default_str, apply_defaults}

pub or_default_idem : (x d : ℤ) → or_default (or_default x d) d ≡ or_default x d
or_default_idem x d = ground arith

or_default_nat_idem : (x d : ℕ) → or_default_nat (or_default_nat x d) d ≡ or_default_nat x d
or_default_nat_idem x d = ground arith

pub or_default_str_idem : (x d : Str) → or_default_str (or_default_str x d) d ≡ or_default_str x d
or_default_str_idem x d = ground (arith, str_eq_iff x [])

-- Defaults fill only what is unset: applied again they change nothing.
pub apply_client_defaults_idem : (c : Client) → apply_defaults (apply_defaults c) ≡ apply_defaults c
unfolding apply_defaults
apply_client_defaults_idem c = simp (or_default_idem, or_default_nat_idem, or_default_str_idem)

-- ===== src/Cli/Dispatch.antt =====
-- cmd/red-mpudp/main.go, `run`: the flags that it refuses.
use mathlib.Core.List.{Memᴰ}
use red_mpudp.Prelude.{
  ◌≡◌, refl, sym, true, Option, List, [], ◌∷◌, ◌⊎◌, inl, inr, Bool-cases, ◌||◌, arith,
}
use red_mpudp.Prelude.Bytes.{Str, codes, str_eq, has_prefix, contains}
use red_mpudp.Config.Types.{Client, Server}
use red_mpudp.Config.Checks.{Library}
use red_mpudp.Config.Load.{Yaml}
use red_mpudp.Identity.Files.{FileSystem}
use red_mpudp.Journal.Schema.{Journal}
use red_mpudp.Journal.Recover.{Host}
use red_mpudp.Cli.{Flags, exit_usage}
use red_mpudp.Cli.Main.{KeySource, exits, banned_names, is_banned, flag_name, has_secret_flag, run}

-- An argument that is a flag and has one of the banned words in its name.
abbrev pub IsSecretFlag : (Str → Str) → Str → Type 0
IsSecretFlag lower a =
    (has_prefix (codes "-") a ≡ true)
    × ((b : Str) × Memᴰ b banned_names × (contains b (flag_name lower a) ≡ true))

is_banned_lem :
    (b name : Str) (banned : List Str)
    → Memᴰ b banned
    → contains b name ≡ true
    → is_banned banned name ≡ true
unfolding is_banned
is_banned_lem b name [] m h = elim m [ ]
is_banned_lem b name (x ∷ banned) m h = elim (Bool-cases (str_eq name x || contains x name)) [
  | inl e ↦ rw e refl
  | inr e ↦ elim m [
    | Memᴰ.head p ↦ let k : contains x name ≡ true = rw p at h in absurd (ground arith)
    | Memᴰ.tail k ↦ rw e (is_banned_lem b name banned k h)
  ]
]

has_secret_flag_lem :
    (lower : Str → Str) (a : Str) (args : List Str)
    → Memᴰ a args
    → IsSecretFlag lower a
    → has_secret_flag lower args ≡ true
unfolding has_secret_flag
has_secret_flag_lem lower a [] m s = elim m [ ]
has_secret_flag_lem lower a (x ∷ args) m (dash, (b, banned, h)) = elim m [
  | Memᴰ.head p ↦ rw (sym p, dash, is_banned_lem b (flag_name lower a) banned_names banned h) refl
  | Memᴰ.tail k ↦
      let rest = has_secret_flag_lem lower a args k (dash, (b, banned, h)) in
      elim (Bool-cases (has_prefix (codes "-") x)) [
        | inl d ↦ elim (Bool-cases (is_banned banned_names (flag_name lower x))) [
          | inl e ↦ rw (d, e) refl
          | inr e ↦ rw (d, e) rest
        ]
        | inr d ↦ rw d rest
      ]
]

module _ {W E H L : Type 0} (fs : FileSystem W E) (keys : KeySource W E) (lower : Str → Str)
    (h : Host W H) (parse : List Str → Option Flags) (load : Str → L ⊎ Journal) where
  module _ {ℓ} {D : Type ℓ} (lib : Library) (cy : Yaml D Client) (sy : Yaml D Server) where
    -- When an argument is a flag with a banned word in its name, `run` exits with 2 and does nothing,
    -- whatever the command and wherever the flag stands.
    pub run-IsSecretFlag :
        (args : List Str) (a : Str) (w : W)
        → Memᴰ a args
        → IsSecretFlag lower a
        → run fs keys lib cy sy lower h parse load args w ≡ exits exit_usage w
    unfolding run
    run-IsSecretFlag [] a w m s = elim m [ ]
    run-IsSecretFlag (name ∷ args) a w m s = rw (has_secret_flag_lem lower a (name ∷ args) m s) refl

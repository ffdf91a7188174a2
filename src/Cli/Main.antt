-- ===== src/Cli/Main.antt =====
-- cmd/red-mpudp/main.go, config.go and keys.go: `run` and the commands beside `cleanup`. Of what a command
-- prints, the key that keygen and public-key print is kept, the rest is left out. The parameters are those of
-- the parts: files, the random and the public keys, the YAML decoder, and those of `cleanup`.
use red_mpudp.Prelude.{
  ℕ, Bool, true, false, not, ◌||◌, ◌==◌, if◌then◌else◌, List, [], ◌∷◌, Option, none, some, ◌⊎◌, inl,
  inr,
}
use red_mpudp.Prelude.Bytes.{Str, codes, str_eq, has_prefix, contains}
use red_mpudp.Config.Types.{Client, Server}
use red_mpudp.Config.Checks.{Library}
use red_mpudp.Config.Load.{Yaml, Loaded, load_client, load_server, load_file}
use red_mpudp.Identity.{encode_key}
use red_mpudp.Identity.Files.{FileSystem, FileError, write_private_key_file, load_private_key_file}
use red_mpudp.Journal.Schema.{Journal}
use red_mpudp.Journal.Recover.{Host}
use red_mpudp.Cli.{Flags, cleanup, exit_ok, exit_usage, exit_config, exit_runtime}

abbrev pub exit_permission : ℕ
exit_permission = 4

-- The exit code, the key that is printed, and the state after.
pub record Ran (W : Type 0) : Type 0 where
  pub code : ℕ
  pub printed : Option Str
  pub world : W

abbrev pub exits : {W : Type 0} → ℕ → W → Ran W
exits code w = record { code = code; printed = none; world = w }

-- `strings.TrimLeft` of dashes, and the part before the first "=".
unfoldable pub trim_dashes : Str → Str
trim_dashes [] = []
trim_dashes (b ∷ s) = let rest = trim_dashes s in if b == 45 then rest else b ∷ s

unfoldable pub before_equals : Str → Str
before_equals [] = []
before_equals (b ∷ s) = let rest = before_equals s in if b == 61 then [] else b ∷ rest

abbrev pub banned_names : List Str
banned_names =
    codes "psk" ∷ codes "key" ∷ codes "secret" ∷ codes "private-key" ∷ codes "preshared" ∷ []

unfoldable pub is_banned : List Str → Str → Bool
is_banned [] name = false
is_banned (b ∷ banned) name =
    if str_eq name b || contains b name then true else is_banned banned name

unfoldable pub trim_nl : Str → Str
trim_nl [] = []
trim_nl (b ∷ s) = trim_after b (trim_nl s)
  where
    trim_after : ℕ → Str → Str
    trim_after c [] = if c == 10 || c == 13 then [] else c ∷ []
    trim_after c (d ∷ t) = c ∷ d ∷ t

unfoldable pub single_path : List Str → Option Str
single_path (path ∷ []) = if str_eq path [] then none else some path
single_path [] = none
single_path (a ∷ b ∷ args) = none

-- `ToLower`, and what `rejectSecretFlags` says of the arguments.
module _ (lower : Str → Str) where
  abbrev pub flag_name : Str → Str
  flag_name a = before_equals (lower (trim_dashes a))

  unfoldable pub has_secret_flag : List Str → Bool
  has_secret_flag [] = false
  has_secret_flag (a ∷ args) =
      if not (has_prefix (codes "-") a)
      then has_secret_flag args
      else if is_banned banned_names (flag_name a)
      then true
      else has_secret_flag args

-- The keys: random ones, which change the state of the source of randomness, and the public key of one.
pub record KeySource (W E : Type 0) : Type 0 where
  pub generate_private_key : W → W × (E ⊎ List ℕ)
  pub generate_psk : W → W × (E ⊎ List ℕ)
  pub public_key : List ℕ → Option (List ℕ)

module _ {W E : Type 0} (fs : FileSystem W E) (keys : KeySource W E) where
  abbrev pub print_public : Option (List ℕ) → W → Ran W
  print_public none w = exits exit_runtime w
  print_public (some pub_key) w = record {
    code = exit_ok;
    printed = some (trim_nl (encode_key pub_key));
    world = w;
  }

  abbrev pub keygen_written : List ℕ → W × Option (FileError E) → Ran W
  keygen_written priv (w, some e) = exits exit_runtime w
  keygen_written priv (w, none) = print_public (keys.public_key priv) w

  abbrev pub keygen_generated : Str → W × (E ⊎ List ℕ) → Ran W
  keygen_generated path (w, inl e) = exits exit_runtime w
  keygen_generated path (w, inr priv) = keygen_written priv (write_private_key_file fs path priv w)

  abbrev pub keygen_path : Option Str → W → Ran W
  keygen_path none w = exits exit_usage w
  keygen_path (some path) w = keygen_generated path (keys.generate_private_key w)

  unfoldable pub keygen : List Str → W → Ran W
  keygen args w = keygen_path (single_path args) w

  abbrev pub psk_written : W × Option (FileError E) → Ran W
  psk_written (w, some e) = exits exit_runtime w
  psk_written (w, none) = exits exit_ok w

  abbrev pub psk_generated : Str → W × (E ⊎ List ℕ) → Ran W
  psk_generated path (w, inl e) = exits exit_runtime w
  psk_generated path (w, inr psk) = psk_written (write_private_key_file fs path psk w)

  abbrev pub psk_path : Option Str → W → Ran W
  psk_path none w = exits exit_usage w
  psk_path (some path) w = psk_generated path (keys.generate_psk w)

  unfoldable pub psk : List Str → W → Ran W
  psk args w = psk_path (single_path args) w

  abbrev pub public_loaded : FileError E ⊎ List ℕ → W → Ran W
  public_loaded (inl e) w = exits exit_permission w
  public_loaded (inr priv) w = print_public (keys.public_key priv) w

  abbrev pub public_path : Option Str → W → Ran W
  public_path none w = exits exit_usage w
  public_path (some path) w = public_loaded (load_private_key_file fs path w) w

  unfoldable pub public_key : List Str → W → Ran W
  public_key args w = public_path (single_path args) w

  module _ {ℓ} {D : Type ℓ} (lib : Library) (client_yaml : Yaml D Client)
      (server_yaml : Yaml D Server) where
    -- `LoadClientFile` and `LoadServerFile` give a configuration.
    abbrev is_loaded {κ} : {A : Type κ} → E ⊎ Loaded A → Bool
    is_loaded (inl e) = false
    is_loaded (inr (inl e)) = false
    is_loaded (inr (inr a)) = true

    abbrev pub accepts_client : Str → W → Bool
    accepts_client path w =
        is_loaded (load_file (λ p. fs.read_file p w) (load_client lib client_yaml) path)

    abbrev pub accepts_server : Str → W → Bool
    accepts_server path w =
        is_loaded (load_file (λ p. fs.read_file p w) (load_server lib server_yaml) path)

    unfoldable pub check_config : List Str → W → Ran W
    check_config [] w = exits exit_usage w
    check_config (role ∷ []) w = exits exit_usage w
    check_config (role ∷ path ∷ []) w =
        if str_eq role (codes "client")
        then exits (if accepts_client path w then exit_ok else exit_config) w
        else if str_eq role (codes "server")
        then exits (if accepts_server path w then exit_ok else exit_config) w
        else exits exit_usage w
    check_config (role ∷ path ∷ extra ∷ args) w = exits exit_usage w

    unfoldable pub run_prepare : Str → List Str → W → Ran W
    run_prepare role [] w = exits exit_usage w
    run_prepare role (path ∷ []) w =
        if str_eq role (codes "client")
        then exits (if accepts_client path w then exit_ok else exit_config) w
        else if str_eq role (codes "server")
        then exits (if accepts_server path w then exit_ok else exit_config) w
        else exits exit_ok w
    run_prepare role (path ∷ extra ∷ args) w = exits exit_usage w

    -- What `cleanup` makes of the state.
    abbrev pub cleaned {κ} : {H : Type κ} → W → ℕ × Option H → (H → W) → Ran W
    cleaned w (code, none) after = exits code w
    cleaned w (code, some p) after = exits code (after p)

    module _ {H L : Type 0} (lower : Str → Str) (h : Host W H) (parse : List Str → Option Flags)
        (load : Str → L ⊎ Journal) where
      unfoldable pub dispatch : Str → List Str → W → Ran W
      dispatch name args w =
          if str_eq name (codes "version")
            || str_eq name (codes "--version")
            || str_eq name (codes "-v")
          then exits exit_ok w
          else if str_eq name (codes "help")
              || str_eq name (codes "--help")
              || str_eq name (codes "-h")
          then exits exit_ok w
          else if str_eq name (codes "keygen")
          then keygen args w
          else if str_eq name (codes "public-key")
          then public_key args w
          else if str_eq name (codes "psk")
          then psk args w
          else if str_eq name (codes "check-config")
          then check_config args w
          else if str_eq name (codes "client") || str_eq name (codes "server")
          then run_prepare name args w
          else if str_eq name (codes "cleanup")
          then cleaned w (cleanup h parse load args w) (λ p. p.world)
          else exits exit_usage w

      unfoldable pub run : List Str → W → Ran W
      run [] w = exits exit_usage w
      run (name ∷ args) w =
          if has_secret_flag lower (name ∷ args) then exits exit_usage w else dispatch name args w

-- ===== src/Cli/Tests.antt =====
-- cmd/red-mpudp on a concrete system.
use red_mpudp.Prelude.{ℕ, suc, ◌≡◌, refl, sym, ◌⊎◌, inr, [], ◌∷◌, none, some}
use red_mpudp.Prelude.Int.{pos}
use red_mpudp.Prelude.Bytes.{Str, codes, str_eq, contains, has_prefix}
use red_mpudp.Journal.Schema.{Journal}
use red_mpudp.Journal.Recover.{Host}
use mathlib.Core.List.{Memᴰ}
use red_mpudp.Config.Tests.{lib, constantly, client, server}
use red_mpudp.Identity.Files.{FileSystem, write_private_key_file, write_exclusive}
use red_mpudp.Identity.Tests.{file_system, key, key-IsKey}
use red_mpudp.Cli.Main.{
  KeySource, exits, keygen, public_key, run, single_path, before_equals, trim_dashes,
}
use red_mpudp.Cli.Keys.{public_key-keygen}
use red_mpudp.Cli.Dispatch.{run-IsSecretFlag}
use red_mpudp.Cli.{Flags, cleanup, IsCleanup, cleanup-IsCleanup}

-- A host that counts its calls.
abbrev host : Host ℕ ℕ
host = record {
  get_sysctl = λ key w. (suc w, inr 1);
  set_sysctl = λ key v w. (suc w, none);
  delete_route = λ r w. (suc w, none);
  delete_rule = λ r w. (suc w, none);
  delete_route_table = λ id w. (suc w, none);
  delete_nft_table = λ t w. (suc w, none);
  restore_resolver = λ r w. (suc w, none);
}

abbrev journal : Journal
journal = record {
  schema = pos 1;
  role = codes "server";
  instance_id = codes "instance-1";
  created_at = 0;
  routes = [];
  rules = [];
  tables = 200 ∷ [];
  nft_tables = record { family = codes "inet"; name = codes "red_mpudp" } ∷ [];
  sysctls = [];
  resolver = none;
}

abbrev flags : Flags
flags = record { state_file = codes "/run/j"; role = codes "server"; instance_id = [] }

abbrev load : Str → ℕ ⊎ Journal
load path = inr journal

cleanup-IsCleanup_example :
    IsCleanup host (λ args. some flags) load [] 0 (cleanup host (λ args. some flags) load [] 0)
cleanup-IsCleanup_example = cleanup-IsCleanup host (λ args. some flags) load [] 0

-- The files of a host that counts its calls.
abbrev files : FileSystem (ℕ × Str) ℕ
files = file_system

abbrev key_source : KeySource (ℕ × Str) ℕ
key_source = record {
  generate_private_key = λ w. (w, inr key);
  generate_psk = λ w. (w, inr key);
  public_key = λ k. some k;
}

abbrev quiet_host : Host (ℕ × Str) ℕ
quiet_host = record {
  get_sysctl = λ name w. (w, inr 1);
  set_sysctl = λ name v w. (w, none);
  delete_route = λ r w. (w, none);
  delete_rule = λ r w. (w, none);
  delete_route_table = λ id w. (w, none);
  delete_nft_table = λ t w. (w, none);
  restore_resolver = λ r w. (w, none);
}

inr-injective : {A B : Type 0} {a b : B} → ◌≡◌ {A = A ⊎ B} (inr a) (inr b) → a ≡ b
inr-injective e = cc

public_key-keygen_example :
    public_key files key_source
      (codes "k" ∷ [])
      (keygen files key_source (codes "k" ∷ []) (0, [])).world
    ≡ keygen files key_source (codes "k" ∷ []) (0, [])
unfolding keygen single_path str_eq write_private_key_file write_exclusive
public_key-keygen_example =
    public_key-keygen files key_source (λ path text w ok. (384, refl, refl, refl))
      (λ w k e. rw (sym (inr-injective e)) key-IsKey) (codes "k") (0, []) refl

run-IsSecretFlag_example :
    run files key_source lib
      (constantly client)
      (constantly server)
      (λ s. s)
      quiet_host
      (λ args. some flags)
      load
      (codes "psk" ∷ codes "--psk=abc" ∷ [])
      (0, [])
    ≡ exits 2 (0, [])
unfolding before_equals trim_dashes contains has_prefix
run-IsSecretFlag_example =
    run-IsSecretFlag files key_source (λ s. s) quiet_host (λ args. some flags) load lib
      (constantly client) (constantly server) (codes "psk" ∷ codes "--psk=abc" ∷ [])
      (codes "--psk=abc") (0, []) (Memᴰ.tail (Memᴰ.head refl))
      (refl, (codes "psk", Memᴰ.head refl, refl))

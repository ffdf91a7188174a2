-- ===== src/Cli/Keys.antt =====
-- cmd/red-mpudp/keys.go and main.go: the key that the commands print, and the flags that are refused.
use red_mpudp.Prelude.{
  ℕ, ◌%◌, ◌≡◌, refl, ◌⊎◌, inl, inr, Option, none, some, List, [], ◌∷◌, Bool-cases,
}
use red_mpudp.Prelude.Bytes.{Str, str_eq}
use red_mpudp.Identity.Parse.RoundTrip.{IsKey}
use red_mpudp.Identity.Files.{
  FileSystem, FileError, IsStored, stored, write_private_key_file, load_private_key_file,
  load-write_private_key_file,
}
use red_mpudp.Cli.Main.{
  KeySource, print_public, keygen_written, keygen_generated, public_loaded, keygen, public_key,
  single_path,
}

module _ {W E : Type 0} (fs : FileSystem W E) (keys : KeySource W E) where
  -- A file created exclusively with mode 0600, written, synced and closed without error has no permission
  -- for group and others and holds what was written.
  abbrev pub KeepsFiles : Type 0
  KeepsFiles =
      (path text : Str) (w : W)
      → IsStored fs path text w
      → (mode : ℕ) × (fs.stat path (stored fs path text w) ≡ inr mode)
        × (mode % 64 ≡ 0)
        × (fs.read_file path (stored fs path text w) ≡ inr text)

  -- The world after a command that printed a public key is the one it was run in.
  print_public-world : (o : Option (List ℕ)) (w : W) → (print_public fs keys o w).world ≡ w
  print_public-world none w = refl
  print_public-world (some k) w = refl

  keygen_written-public :
      (path : Str) (priv : List ℕ) (r : W × Option (FileError E))
      → (r.1 ≡ none → load_private_key_file fs path r.0 ≡ inr priv)
      → (keygen_written fs keys priv r).code ≡ 0
      → public_loaded fs keys
          (load_private_key_file fs path (keygen_written fs keys priv r).world)
          (keygen_written fs keys priv r).world
        ≡ keygen_written fs keys priv r
  keygen_written-public path priv (w, some e) loads done = absurd (cc)
  keygen_written-public path priv (w, none) loads done =
      let same = print_public-world (keys.public_key priv) w in rw (same, loads refl) refl

  keygen_generated-public :
      KeepsFiles
      → (path : Str) (r : W × (E ⊎ List ℕ)) → ((k : List ℕ) → r.1 ≡ inr k → IsKey k)
      → (keygen_generated fs keys path r).code ≡ 0
      → public_loaded fs keys
          (load_private_key_file fs path (keygen_generated fs keys path r).world)
          (keygen_generated fs keys path r).world
        ≡ keygen_generated fs keys path r
  keygen_generated-public keeps path (w, inl e) sized done = absurd (cc)
  keygen_generated-public keeps path (w, inr priv) sized done =
      keygen_written-public path priv (write_private_key_file fs path priv w)
        (load-write_private_key_file fs keeps path priv w (sized priv refl)) done

  -- On a file system that keeps what is written to a key file, and with generated keys of 32 bytes: when
  -- keygen exits with 0, public-key for the same path then exits with 0 too, prints the same public key,
  -- and changes nothing.
  pub public_key-keygen :
      KeepsFiles
      → ((w : W) (k : List ℕ) → (keys.generate_private_key w).1 ≡ inr k → IsKey k)
      → (path : Str) (w : W) → (keygen fs keys (path ∷ []) w).code ≡ 0
      → public_key fs keys (path ∷ []) (keygen fs keys (path ∷ []) w).world
        ≡ keygen fs keys (path ∷ []) w
  unfolding keygen public_key single_path
  public_key-keygen keeps sized path w done = elim (Bool-cases (str_eq path [])) [
    | inl e ↦ absurd (cc (rw e at done))
    | inr e ↦
        rw e (
          keygen_generated-public keeps path (keys.generate_private_key w) (sized w) (rw e at done))
  ]

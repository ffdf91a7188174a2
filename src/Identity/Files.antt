-- ===== src/Identity/Files.antt =====
-- internal/identity: `LoadPrivateKeyFile`, `LoadPublicKeyFile` and `writeExclusive`. The calls on files are
-- a parameter over a state `W` of the file system, with its errors `E`.
use red_mpudp.Prelude.{
  ℕ, ◌%◌, ◌≡◌, refl, ◌∙◌, ap, ◌⊎◌, inl, inr, Bool, Option, none, some, if◌then◌else◌, ◌==◌, List,
}
use red_mpudp.Prelude.Bytes.{Str}
use red_mpudp.Identity.{KeyError, parse_key, encode_key}
use red_mpudp.Identity.Parse.RoundTrip.{IsKey, parse_key-encode_key}

-- `Stat`, as the permission bits; `ReadFile`; `OpenFile` with O_EXCL and O_CREATE and a mode, which may find
-- that the file exists; and `Write`, `Sync` and `Close` of the file just opened.
pub record FileSystem (W E : Type 0) : Type 0 where
  pub stat : Str → W → E ⊎ ℕ
  pub read_file : Str → W → E ⊎ Str
  pub open_exclusive : Str → ℕ → W → W × Option E
  pub exists_error : E → Bool
  pub write : Str → Str → W → W × Option E
  pub sync : Str → W → W × Option E
  pub close : Str → W → W × Option E

pub data FileError (E : Type 0) : Type 0 where
  io : E → FileError E
  too_open already_exists : FileError E
  bad_key : KeyError → FileError E

module _ {W E : Type 0} (fs : FileSystem W E) where
  abbrev after_parse : KeyError ⊎ List ℕ → FileError E ⊎ List ℕ
  after_parse (inl e) = inl (bad_key e)
  after_parse (inr k) = inr k

  abbrev after_read : E ⊎ Str → FileError E ⊎ List ℕ
  after_read (inl e) = inl (io e)
  after_read (inr raw) = after_parse (parse_key raw)

  -- `mode & 0o077 != 0`: the six low bits.
  abbrev after_stat : Str → W → E ⊎ ℕ → FileError E ⊎ List ℕ
  after_stat path w (inl e) = inl (io e)
  after_stat path w (inr mode) =
      if mode % 64 == 0 then after_read (fs.read_file path w) else inl too_open

  unfoldable pub load_private_key_file : Str → W → FileError E ⊎ List ℕ
  load_private_key_file path w = after_stat path w (fs.stat path w)

  unfoldable pub load_public_key_file : Str → W → FileError E ⊎ List ℕ
  load_public_key_file path w = after_read (fs.read_file path w)

  -- The deferred `Close`; its error is dropped.
  abbrev closed : Str → W × Option E → W × Option (FileError E)
  closed path (w, none) = ((fs.close path w).0, none)
  closed path (w, some e) = ((fs.close path w).0, some (io e))

  abbrev after_write : Str → W × Option E → W × Option (FileError E)
  after_write path (w, some e) = closed path (w, some e)
  after_write path (w, none) = closed path (fs.sync path w)

  abbrev after_open : Str → Str → W × Option E → W × Option (FileError E)
  after_open path text (w, some e) = (w, some (if fs.exists_error e then already_exists else io e))
  after_open path text (w, none) = after_write path (fs.write path text w)

  unfoldable pub write_exclusive : Str → Str → ℕ → W → W × Option (FileError E)
  write_exclusive path text mode w = after_open path text (fs.open_exclusive path mode w)

  -- Modes 0600 and 0644.
  unfoldable pub write_private_key_file : Str → List ℕ → W → W × Option (FileError E)
  write_private_key_file path key w = write_exclusive path (encode_key key) 384 w

  unfoldable pub write_public_key_file : Str → List ℕ → W → W × Option (FileError E)
  write_public_key_file path key w = write_exclusive path (encode_key key) 420 w

  -- The states after the calls of a write that goes well.
  module _ (path text : Str) (w : W) where
    abbrev opened : W
    opened = (fs.open_exclusive path 384 w).0

    abbrev written : W
    written = (fs.write path text opened).0

    abbrev synced : W
    synced = (fs.sync path written).0

    abbrev pub stored : W
    stored = (fs.close path synced).0

    -- Each call of the write went well.
    abbrev pub IsStored : Type 0
    IsStored =
        ((fs.open_exclusive path 384 w).1 ≡ none)
        × ((fs.write path text opened).1 ≡ none)
        × ((fs.sync path written).1 ≡ none)

    closed_none :
        (r : W × Option E)
        → (closed path r).1 ≡ none
        → (r.1 ≡ none) × ((closed path r).0 ≡ (fs.close path r.0).0)
    closed_none (v, none) h = (refl, refl)
    closed_none (v, some e) h = absurd (cc)

    after_write-none :
        (r : W × Option E)
        → (after_write path r).1 ≡ none
        → (r.1 ≡ none)
          × ((fs.sync path r.0).1 ≡ none)
          × ((after_write path r).0 ≡ (fs.close path (fs.sync path r.0).0).0)
    after_write-none (v, none) h = let (s, e) = closed_none (fs.sync path v) h in (refl, s, e)
    after_write-none (v, some e) h = absurd (cc)

    after_open-none :
        (r : W × Option E)
        → (after_open path text r).1 ≡ none
        → (r.1 ≡ none)
          × ((fs.write path text r.0).1 ≡ none)
          × ((fs.sync path (fs.write path text r.0).0).1 ≡ none)
          × ((after_open path text r).0
              ≡ (fs.close path (fs.sync path (fs.write path text r.0).0).0).0)
    after_open-none (v, none) h =
        let (a, b, c) = after_write-none (fs.write path text v) h in (refl, a, b, c)
    after_open-none (v, some e) h = absurd (cc)

    write_exclusive-none :
        (write_exclusive path text 384 w).1 ≡ none
        → IsStored × ((write_exclusive path text 384 w).0 ≡ stored)
    unfolding write_exclusive
    write_exclusive-none h =
        let (a, b, c, d) = after_open-none (fs.open_exclusive path 384 w) h in ((a, b, c), d)

  load_private_lem :
      (path : Str) (w : W) (mode : ℕ) (raw : Str) (key : List ℕ)
      → fs.stat path w ≡ inr mode
      → mode % 64 ≡ 0
      → fs.read_file path w ≡ inr raw
      → parse_key raw ≡ inr key
      → load_private_key_file path w ≡ inr key
  unfolding load_private_key_file
  load_private_lem path w mode raw key s m r p = rw (s, m, r, p) refl

  -- On a file system where a file that was created exclusively with mode 0600, written, synced and closed
  -- without error has no permission for group and others and holds what was written: a key of 32 bytes
  -- that `WritePrivateKeyFile` wrote without error is the key that `LoadPrivateKeyFile` then reads.
  pub load-write_private_key_file :
      ((path text : Str) (w : W)
        → IsStored path text w
        → (mode : ℕ) × (fs.stat path (stored path text w) ≡ inr mode)
          × (mode % 64 ≡ 0)
          × (fs.read_file path (stored path text w) ≡ inr text))
      → (path : Str) (key : List ℕ) (w : W) → IsKey key
      → (write_private_key_file path key w).1 ≡ none
      → load_private_key_file path (write_private_key_file path key w).0 ≡ inr key
  unfolding write_private_key_file
  load-write_private_key_file keeps path key w is_key done =
      let (ok, final) = write_exclusive-none path (encode_key key) w done in
      let (mode, stat, private, read) = keeps path (encode_key key) w ok in
      ap (load_private_key_file path) final
      ∙ load_private_lem path (stored path (encode_key key) w) mode (encode_key key) key stat
          private read (parse_key-encode_key key is_key)

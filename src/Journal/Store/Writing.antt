-- ===== src/Journal/Store/Writing.antt =====
-- internal/journal/store.go, `WriteTo`: a temporary file, and its rename to the path. The calls are
-- parameters, and are written to a trace.
pub mod Atomic
use red_mpudp.Prelude.{
  Bool, true, false, List, [], ◌∷◌, ◌++◌, Option, none, some, if◌then◌else◌, ◌⊎◌, inl, inr,
}
use red_mpudp.Prelude.Int.{is_zero_ℤ, pos}
use red_mpudp.Prelude.Bytes.{Str}
use red_mpudp.Journal.Schema.{Journal, JournalError, validate, schema_version}

-- A call on the temporary file, or on the directory.
pub data Call : Type 0 where
  chmod_600 close_tmp sync_tmp remove_tmp : Str → Call
  write_tmp : Str → Str → Call
  rename : Str → Str → Call
  open_dir sync_dir close_dir : Str → Call

-- `MarshalIndent`, `filepath.Dir`, `CreateTemp` in a directory, every other call, and the error EINVAL.
pub record Writer (W E : Type 0) : Type 0 where
  pub marshal : Journal → E ⊎ Str
  pub dir_of : Str → Str
  pub create_temp : Str → W → W × (E ⊎ Str)
  pub do_call : Call → W → W × Option E
  pub is_einval : E → Bool

pub data WriteError (E : Type 0) : Type 0 where
  failed : E → WriteError E
  not_valid : JournalError → WriteError E

abbrev pub is_done {ℓ} : {E : Type ℓ} → Option E → Bool
is_done none = true
is_done (some e) = false

-- The system, and the calls so far with whether each succeeded.
pub record Log (W : Type 0) : Type 0 where
  pub world : W
  pub calls : List (Call × Bool)

-- The state, the error of the last call, if any.
abbrev pub Done : Type 0 → Type 0 → Type 0
Done W E = Log W × Option E

module _ {W E : Type 0} (sys : Writer W E) where
  abbrev pub made : Call → Log W → W × Option E → Done W E
  made c l (w, r) = (record { world = w; calls = l.calls ++ (c, is_done r) ∷ [] }, r)

  abbrev pub perform : Call → Log W → Done W E
  perform c l = made c l (sys.do_call c l.world)

  -- `cleanup`, and the removal alone; their errors are dropped.
  abbrev pub remove : Str → Log W → Log W
  remove tmp l = (perform (remove_tmp tmp) l).0

  abbrev pub cleanup : Str → Log W → Log W
  cleanup tmp l = remove tmp (perform (close_tmp tmp) l).0

  -- `fsyncDir`, with its deferred `Close`.
  abbrev pub dir_synced : Str → Done W E → Done W E
  dir_synced dir (l, none) = ((perform (close_dir dir) l).0, none)
  dir_synced dir (l, some e) =
      ((perform (close_dir dir) l).0, if sys.is_einval e then none else some e)

  abbrev pub dir_opened : Str → Done W E → Done W E
  dir_opened dir (l, some e) = (l, some e)
  dir_opened dir (l, none) = dir_synced dir (perform (sync_dir dir) l)

  abbrev pub fsync_dir : Str → Log W → Done W E
  fsync_dir dir l = dir_opened dir (perform (open_dir dir) l)

  -- The rest of `WriteTo` after each call on the temporary file.
  abbrev pub after_rename : Str → Str → Done W E → Done W E
  after_rename tmp path (l, some e) = (remove tmp l, some e)
  after_rename tmp path (l, none) = fsync_dir (sys.dir_of path) l

  abbrev pub after_close : Str → Str → Done W E → Done W E
  after_close tmp path (l, some e) = (remove tmp l, some e)
  after_close tmp path (l, none) = after_rename tmp path (perform (rename tmp path) l)

  abbrev pub after_sync : Str → Str → Done W E → Done W E
  after_sync tmp path (l, some e) = (cleanup tmp l, some e)
  after_sync tmp path (l, none) = after_close tmp path (perform (close_tmp tmp) l)

  abbrev pub after_write : Str → Str → Done W E → Done W E
  after_write tmp path (l, some e) = (cleanup tmp l, some e)
  after_write tmp path (l, none) = after_sync tmp path (perform (sync_tmp tmp) l)

  abbrev pub after_chmod : Str → Str → Str → Done W E → Done W E
  after_chmod tmp text path (l, some e) = (cleanup tmp l, some e)
  after_chmod tmp text path (l, none) = after_write tmp path (perform (write_tmp tmp text) l)

  -- From the temporary file on.
  unfoldable pub fill : Str → Str → Str → Log W → Done W E
  fill tmp text path l = after_chmod tmp text path (perform (chmod_600 tmp) l)

  abbrev pub wrapped : Option E → Option (WriteError E)
  wrapped none = none
  wrapped (some e) = some (failed e)

  abbrev pub after_create : Str → Str → W × (E ⊎ Str) → Log W × Option (WriteError E)
  after_create text path (w, inl e) = (record { world = w; calls = [] }, some (failed e))
  after_create text path (w, inr tmp) =
      let (l, r) = fill tmp text path (record { world = w; calls = [] }) in (l, wrapped r)

  -- The text ends in a newline.
  abbrev pub after_marshal : Str → W → E ⊎ Str → Log W × Option (WriteError E)
  after_marshal path w (inl e) = (record { world = w; calls = [] }, some (failed e))
  after_marshal path w (inr text) =
      after_create (text ++ 10 ∷ []) path (sys.create_temp (sys.dir_of path) w)

  abbrev pub after_validate :
      Journal → Str → W → Option JournalError → Log W × Option (WriteError E)
  after_validate j path w (some e) = (record { world = w; calls = [] }, some (not_valid e))
  after_validate j path w none = after_marshal path w (sys.marshal j)

  -- A journal without a schema version gets the current one.
  abbrev pub with_schema : Journal → Journal
  with_schema j = if is_zero_ℤ j.schema then record j { schema = pos schema_version } else j

  unfoldable pub write_to : Journal → Str → W → Log W × Option (WriteError E)
  write_to j path w = let j' = with_schema j in after_validate j' path w (validate j')

-- ===== src/Journal/Store.antt =====
-- internal/journal/store.go: `Load`, and `WriteTo` and `EnsureDir` in the children. The system's calls and
-- the JSON package are parameters: a state `W` of the file system, with its errors `E`. The calls of
-- `WriteTo` are written to a trace.
pub mod Loading
pub mod Writing
pub mod Directory
pub mod Tests
use red_mpudp.Prelude.{
  ℕ, ◌%◌, Bool, true, false, List, [], ◌∷◌, ◌++◌, Option, none, some, ◌==◌, not, ◌||◌,
  if◌then◌else◌, ◌⊎◌, inl, inr,
}
use red_mpudp.Prelude.Int.{ℤ, pos, is_zero_ℤ}
use red_mpudp.Prelude.Bytes.{Str}
use red_mpudp.Journal.Schema.{Journal, JournalError, validate, schema_version}

-- What `Stat` tells of an open file; the mode is the permission bits, `Perm`.
pub record FileInfo : Type 0 where
  pub is_regular : Bool
  pub mode : ℕ
  pub links : ℕ
  pub uid : ℕ

pub data LoadError (E : Type 0) : Type 0 where
  failed malformed : E → LoadError E
  not_regular too_open no_owner wrong_owner trailing_data : LoadError E
  hard_links : ℕ → LoadError E
  not_valid : JournalError → LoadError E

-- The calls of `Load`: `OpenFile` with O_NOFOLLOW, which gives a descriptor; `Stat` of a descriptor, and
-- the owner and links if the system tells them; `ReadAll`; the effective user; and the strict decoder of a
-- JSON text, which gives the journal and whether the text ends after it.
pub record Reader (F E : Type 0) : Type 0 where
  pub open_nofollow : Str → E ⊎ F
  pub stat : F → E ⊎ (FileInfo × Bool)
  pub read_all : F → E ⊎ Str
  pub euid : ℕ
  pub decode : Str → E ⊎ (Journal × Bool)

module _ {F E : Type 0} (sys : Reader F E) where
  abbrev pub acceptable_owner : ℕ → Bool
  acceptable_owner uid = uid == sys.euid || uid == 0

  -- The tests of the open file; `Perm() & 0o077` is the six low bits.
  unfoldable pub check_file : FileInfo → Bool → Option (LoadError E)
  check_file fi tells_owner =
      if not fi.is_regular
      then some not_regular
      else if not (fi.mode % 64 == 0)
      then some too_open
      else if not tells_owner
      then some no_owner
      else if not (fi.links == 1)
      then some (hard_links fi.links)
      else if not (acceptable_owner fi.uid)
      then some wrong_owner
      else none

  abbrev pub after_validate : Journal → Option JournalError → LoadError E ⊎ Journal
  after_validate j none = inr j
  after_validate j (some e) = inl (not_valid e)

  abbrev pub after_decode : E ⊎ (Journal × Bool) → LoadError E ⊎ Journal
  after_decode (inl e) = inl (malformed e)
  after_decode (inr (j, ends)) = if ends then after_validate j (validate j) else inl trailing_data

  abbrev pub after_read : E ⊎ Str → LoadError E ⊎ Journal
  after_read (inl e) = inl (failed e)
  after_read (inr text) = after_decode (sys.decode text)

  abbrev pub after_check : F → Option (LoadError E) → LoadError E ⊎ Journal
  after_check f (some e) = inl e
  after_check f none = after_read (sys.read_all f)

  abbrev pub after_stat : F → E ⊎ (FileInfo × Bool) → LoadError E ⊎ Journal
  after_stat f (inl e) = inl (failed e)
  after_stat f (inr (fi, tells_owner)) = after_check f (check_file fi tells_owner)

  abbrev pub after_open : E ⊎ F → LoadError E ⊎ Journal
  after_open (inl e) = inl (failed e)
  after_open (inr f) = after_stat f (sys.stat f)

  unfoldable pub load : Str → LoadError E ⊎ Journal
  load path = after_open (sys.open_nofollow path)

-- ===== src/Journal/Store/Writing/Atomic.antt =====
-- internal/journal/store.go: the traces of `WriteTo`, call by call.
use red_mpudp.Prelude.{
  ◌≡◌, ◌≢◌, refl, ◌⊎◌, inl, inr, Bool, true, false, List, [], ◌∷◌, ◌++◌, Option, none, some,
}
use red_mpudp.Prelude.Bytes.{Str}
use red_mpudp.Journal.Schema.{Journal, JournalError, validate}
use red_mpudp.Journal.Store.Writing.{
  WriteError, wrapped, after_create, after_marshal, after_validate, with_schema, write_to, Call,
  chmod_600, close_tmp, sync_tmp, remove_tmp, write_tmp, rename, open_dir, sync_dir, close_dir,
  Writer, Log, Done, dir_synced, dir_opened, after_rename, after_close, after_sync, after_write,
  after_chmod, fill, is_done,
}

-- The calls up to the rename, all of them done.
abbrev pub published : Str → Str → Str → List (Call × Bool)
published tmp text path =
    (chmod_600 tmp, true)
    ∷ (write_tmp tmp text, true)
    ∷ (sync_tmp tmp, true)
    ∷ (close_tmp tmp, true)
    ∷ (rename tmp path, true)
    ∷ []

-- No rename was done.
abbrev pub NoRename : List (Call × Bool) → Type 0
NoRename [] = Unit
NoRename ((rename tmp path, b) ∷ calls) = (b ≡ false) × NoRename calls
NoRename ((chmod_600 tmp, b) ∷ calls) = NoRename calls
NoRename ((close_tmp tmp, b) ∷ calls) = NoRename calls
NoRename ((sync_tmp tmp, b) ∷ calls) = NoRename calls
NoRename ((remove_tmp tmp, b) ∷ calls) = NoRename calls
NoRename ((write_tmp tmp text, b) ∷ calls) = NoRename calls
NoRename ((open_dir dir, b) ∷ calls) = NoRename calls
NoRename ((sync_dir dir, b) ∷ calls) = NoRename calls
NoRename ((close_dir dir, b) ∷ calls) = NoRename calls

-- Every call is one on the directory `dir`: it is opened, synced or closed.
abbrev pub OnlyDirectory : Str → List (Call × Bool) → Type 0
OnlyDirectory dir [] = Unit
OnlyDirectory dir ((open_dir d, b) ∷ calls) = (d ≡ dir) × OnlyDirectory dir calls
OnlyDirectory dir ((sync_dir d, b) ∷ calls) = (d ≡ dir) × OnlyDirectory dir calls
OnlyDirectory dir ((close_dir d, b) ∷ calls) = (d ≡ dir) × OnlyDirectory dir calls
OnlyDirectory dir ((chmod_600 tmp, b) ∷ calls) = ⊥
OnlyDirectory dir ((close_tmp tmp, b) ∷ calls) = ⊥
OnlyDirectory dir ((sync_tmp tmp, b) ∷ calls) = ⊥
OnlyDirectory dir ((remove_tmp tmp, b) ∷ calls) = ⊥
OnlyDirectory dir ((write_tmp tmp text, b) ∷ calls) = ⊥
OnlyDirectory dir ((rename tmp path, b) ∷ calls) = ⊥

module _ {W E : Type 0} (sys : Writer W E) where
  -- The file is in place, and every call after that is on the path's directory; or there was no rename, the
  -- last call removed the temporary file, and there is an error.
  abbrev pub IsAtomic : Str → Str → Str → Done W E → Type 0
  IsAtomic tmp text path (l, r) =
      ((rest : List (Call × Bool)) × (l.calls ≡ published tmp text path ++ rest)
        × OnlyDirectory (sys.dir_of path) rest)
      ⊎ (NoRename l.calls
          × (r ≢ none)
          × ((front : List (Call × Bool)) × (b : Bool) × (l.calls
                ≡ front ++ (remove_tmp tmp, b) ∷ [])))

  -- A log of just these calls.
  abbrev at : W → List (Call × Bool) → Log W
  at w calls = record { world = w; calls = calls }

  module _ (tmp text path : Str) where
    -- The calls before the rename, each done.
    abbrev before : List (Call × Bool)
    before = (chmod_600 tmp, true) ∷ (write_tmp tmp text, true) ∷ (sync_tmp tmp, true) ∷ []

    abbrev dir : Str
    dir = sys.dir_of path

    dir_synced_lem :
        (w : W) (r : Option E)
        → IsAtomic tmp text path (
            dir_synced sys dir (
              at w (
                  published tmp text path ++ (open_dir dir, true) ∷ (sync_dir dir, is_done r) ∷ []),
              r,
            ))
    dir_synced_lem w none = inl (_, refl, (refl, (refl, (refl, tt))))
    dir_synced_lem w (some e) = inl (_, refl, (refl, (refl, (refl, tt))))

    dir_opened_lem :
        (w : W) (r : Option E)
        → IsAtomic tmp text path (
            dir_opened sys dir
              (at w (published tmp text path ++ (open_dir dir, is_done r) ∷ []), r))
    dir_opened_lem w none = let (w', r) = sys.do_call (sync_dir dir) w in dir_synced_lem w' r
    dir_opened_lem w (some e) = inl (_, refl, (refl, tt))

    after_rename_lem :
        (w : W) (r : Option E)
        → IsAtomic tmp text path (
            after_rename sys tmp path
              (at w (before ++ (close_tmp tmp, true) ∷ (rename tmp path, is_done r) ∷ []), r))
    after_rename_lem w none = let (w', r) = sys.do_call (open_dir dir) w in dir_opened_lem w' r
    after_rename_lem w (some e) = inr (
      (refl, tt),
      λ h. cc,
      (before ++ (close_tmp tmp, true) ∷ (rename tmp path, false) ∷ [], _, refl),
    )

    after_close_lem :
        (w : W) (r : Option E)
        → IsAtomic tmp text path
            (after_close sys tmp path (at w (before ++ (close_tmp tmp, is_done r) ∷ []), r))
    after_close_lem w none = let (w', r) = sys.do_call (rename tmp path) w in after_rename_lem w' r
    after_close_lem w (some e) = inr (tt, λ h. cc, (before ++ (close_tmp tmp, false) ∷ [], _, refl))

    after_sync_lem :
        (w : W) (r : Option E)
        → IsAtomic tmp text path (
            after_sync sys tmp path (
              at w (
                  (chmod_600 tmp, true)
                  ∷ (write_tmp tmp text, true)
                  ∷ (sync_tmp tmp, is_done r)
                  ∷ []),
              r,
            ))
    after_sync_lem w none = let (w', r) = sys.do_call (close_tmp tmp) w in after_close_lem w' r
    after_sync_lem w (some e) = inr (
      tt,
      λ h. cc,
      (
        (chmod_600 tmp, true)
            ∷ (write_tmp tmp text, true)
            ∷ (sync_tmp tmp, false)
            ∷ (close_tmp tmp, _)
            ∷ [],
        _,
        refl,
      ),
    )

    after_write_lem :
        (w : W) (r : Option E)
        → IsAtomic tmp text path (
            after_write sys tmp path
              (at w ((chmod_600 tmp, true) ∷ (write_tmp tmp text, is_done r) ∷ []), r))
    after_write_lem w none = let (w', r) = sys.do_call (sync_tmp tmp) w in after_sync_lem w' r
    after_write_lem w (some e) = inr (
      tt,
      λ h. cc,
      ((chmod_600 tmp, true) ∷ (write_tmp tmp text, false) ∷ (close_tmp tmp, _) ∷ [], _, refl),
    )

    after_chmod_lem :
        (w : W) (r : Option E)
        → IsAtomic tmp text path
            (after_chmod sys tmp text path (at w ((chmod_600 tmp, is_done r) ∷ []), r))
    after_chmod_lem w none =
        let (w', r) = sys.do_call (write_tmp tmp text) w in after_write_lem w' r
    after_chmod_lem w (some e) =
        inr (tt, λ h. cc, ((chmod_600 tmp, false) ∷ (close_tmp tmp, _) ∷ [], _, refl))

  -- From the creation of the temporary file on, on any system, `WriteTo` either sets the mode, writes the
  -- whole text, syncs, closes and renames the file, all of them done and in this order, and then only
  -- opens, syncs and closes the directory; or it does no rename, returns an error, and removes the temporary file last.
  pub fill-IsAtomic :
      (tmp text path : Str) (w : W)
      → IsAtomic tmp text path (fill sys tmp text path (record { world = w; calls = [] }))
  unfolding fill
  fill-IsAtomic tmp text path w =
      let (w', r) = sys.do_call (chmod_600 tmp) w in after_chmod_lem tmp text path w' r

  -- Nothing was called, and there is an error; or the journal is valid, and its JSON text and a newline
  -- were published atomically.
  abbrev pub IsWritten : Journal → Str → Log W × Option (WriteError E) → Type 0
  IsWritten j path (l, r) =
      ((l.calls ≡ []) × (r ≢ none))
      ⊎ ((tmp : Str) × (text : Str) × (e : Option E) × (validate j ≡ none)
          × (sys.marshal j ≡ inr text)
          × (r ≡ wrapped sys e)
          × IsAtomic tmp (text ++ 10 ∷ []) path (l, e))

  after_create_lem :
      (j : Journal) (text path : Str) (c : W × (E ⊎ Str))
      → validate j ≡ none
      → sys.marshal j ≡ inr text
      → IsWritten j path (after_create sys (text ++ 10 ∷ []) path c)
  after_create_lem j text path (w, inl e) valid json = inl (refl, λ h. cc)
  after_create_lem j text path (w, inr tmp) valid json =
      inr (tmp, text, _, valid, json, refl, fill-IsAtomic tmp (text ++ 10 ∷ []) path w)

  after_marshal_lem :
      (j : Journal) (path : Str) (w : W) (m : E ⊎ Str)
      → validate j ≡ none
      → sys.marshal j ≡ m
      → IsWritten j path (after_marshal sys path w m)
  after_marshal_lem j path w (inl e) valid json = inl (refl, λ h. cc)
  after_marshal_lem j path w (inr text) valid json =
      after_create_lem j text path (sys.create_temp (sys.dir_of path) w) valid json

  after_validate_lem :
      (j : Journal) (path : Str) (w : W) (v : Option JournalError)
      → validate j ≡ v
      → IsWritten j path (after_validate sys j path w v)
  after_validate_lem j path w none valid = after_marshal_lem j path w (sys.marshal j) valid refl
  after_validate_lem j path w (some e) valid = inl (refl, λ h. cc)

  -- On any system `WriteTo` returns an error and calls nothing on the temporary file; or the journal, with
  -- the schema version filled in, is valid, and its JSON text and a newline go to a temporary file: this
  -- has its mode set, is written, synced, closed and renamed to the path, all done and in this order, and
  -- every call after the rename opens, syncs or closes the path's directory; or no rename is done, there is
  -- an error, and the last call removes the temporary file.
  pub write_to-IsWritten :
      (j : Journal) (path : Str) (w : W)
      → IsWritten (with_schema sys j) path (write_to sys j path w)
  unfolding write_to
  write_to-IsWritten j path w =
      after_validate_lem (with_schema sys j) path w (validate (with_schema sys j)) refl

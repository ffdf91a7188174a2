-- ===== src/Journal/Store/Directory.antt =====
-- internal/journal/store.go, `EnsureDir`. The calls on the file system are a parameter, over its state `W`
-- and with its errors `E`.
use red_mpudp.Prelude.{
  ℕ, ◌%◌, ◌≡◌, ◌≢◌, refl, Bool, true, false, not, ◌==◌, ◌||◌, if◌then◌else◌, Option, none, some,
  ◌⊎◌, inl, inr, arith, Bool-cases, ==→eq, ==→ne,
}
use red_mpudp.Prelude.Bytes.{Str}

-- What `Lstat` tells of a path; the owner only if the system tells it.
pub record DirInfo : Type 0 where
  pub is_symlink : Bool
  pub is_dir : Bool
  pub owner : Option ℕ
  pub mode : ℕ

pub record Directories (W E : Type 0) : Type 0 where
  pub mkdir_all : Str → ℕ → W → W × Option E
  pub lstat : Str → W → E ⊎ DirInfo
  pub chmod : Str → ℕ → W → W × Option E
  pub euid : ℕ

pub data DirError (E : Type 0) : Type 0 where
  io not_tightened : E → DirError E
  symlink not_a_directory unknown_owner wrong_owner : DirError E

module _ {W E : Type 0} (sys : Directories W E) where
  abbrev tightened : W × Option E → W × Option (DirError E)
  tightened (w, none) = (w, none)
  tightened (w, some e) = (w, some (not_tightened e))

  -- `mode & 0o077 != 0`: the six low bits.
  abbrev pub check_mode : Str → W → ℕ → W × Option (DirError E)
  check_mode dir w mode =
      if not (mode % 64 == 0) then tightened (sys.chmod dir 448 w) else (w, none)

  abbrev pub check_dir_owner : Str → W → ℕ → Option ℕ → W × Option (DirError E)
  check_dir_owner dir w mode none = (w, some unknown_owner)
  check_dir_owner dir w mode (some uid) =
      if not (uid == sys.euid || uid == 0) then (w, some wrong_owner) else check_mode dir w mode

  abbrev pub check_dir : Str → W → E ⊎ DirInfo → W × Option (DirError E)
  check_dir dir w (inl e) = (w, some (io e))
  check_dir dir w (inr fi) =
      if fi.is_symlink
      then (w, some symlink)
      else if not fi.is_dir
      then (w, some not_a_directory)
      else check_dir_owner dir w fi.mode fi.owner

  abbrev pub after_mkdir : Str → W × Option E → W × Option (DirError E)
  after_mkdir dir (w, some e) = (w, some (io e))
  after_mkdir dir (w, none) = check_dir dir w (sys.lstat dir w)

  -- Mode 0700.
  unfoldable pub ensure_dir : Str → W → W × Option (DirError E)
  ensure_dir dir w = after_mkdir dir (sys.mkdir_all dir 448 w)

  -- The state `v` comes from the state `w`, in which the mode is `mode`: nothing was done, since the mode
  -- gives no permission to group and others; or it does, and a change of the mode to 0700, which succeeded,
  -- is the only step.
  abbrev pub IsTight : Str → W → W → ℕ → Type 0
  IsTight dir w v mode =
      ((mode % 64 ≡ 0) × (v ≡ w)) ⊎ ((mode % 64 ≢ 0) × (sys.chmod dir 448 w ≡ (v, none)))

  -- In the state `w` the path is a directory and no link, of the effective user or of root, and the state
  -- `v` comes from it by the change of a mode that is too open.
  abbrev pub IsUsable : Str → W → W → Type 0
  IsUsable dir w v =
      (fi : DirInfo) × (uid : ℕ) × (sys.lstat dir w ≡ inr fi)
      × (fi.is_symlink ≡ false)
      × (fi.is_dir ≡ true)
      × (fi.owner ≡ some uid)
      × ((uid ≡ sys.euid) ⊎ (uid ≡ 0))
      × IsTight dir w v fi.mode

  tightened-none : (r : W × Option E) → (tightened r).1 ≡ none → r ≡ ((tightened r).0, none)
  tightened-none (w, none) h = refl
  tightened-none (w, some e) h = absurd (cc)

  check_mode-none :
      (dir : Str) (w : W) (mode : ℕ)
      → (check_mode dir w mode).1 ≡ none
      → IsTight dir w (check_mode dir w mode).0 mode
  check_mode-none dir w mode h = elim (Bool-cases (mode % 64 == 0)) [
    | inl e ↦ rw e (inl (==→eq (mode % 64) 0 e, refl))
    | inr e ↦ rw e (inr (==→ne (mode % 64) 0 e, tightened-none (sys.chmod dir 448 w) (rw e at h)))
  ]

  check_dir_owner-none :
      (dir : Str) (w : W) (mode : ℕ) (o : Option ℕ)
      → (check_dir_owner dir w mode o).1 ≡ none
      → (uid : ℕ) × (o ≡ some uid)
        × ((uid ≡ sys.euid) ⊎ (uid ≡ 0))
        × IsTight dir w (check_dir_owner dir w mode o).0 mode
  check_dir_owner-none dir w mode none h = absurd (cc)
  check_dir_owner-none dir w mode (some uid) h = elim (Bool-cases (uid == sys.euid || uid == 0)) [
    | inl e ↦ rw e (uid, refl, ground arith, check_mode-none dir w mode (rw e at h))
    | inr e ↦ absurd (cc (rw e at h))
  ]

  check_dir-none :
      (dir : Str) (w : W) (i : E ⊎ DirInfo)
      → sys.lstat dir w ≡ i
      → (check_dir dir w i).1 ≡ none
      → IsUsable dir w (check_dir dir w i).0
  check_dir-none dir w (inl e) p k = absurd (cc)
  check_dir-none dir w (inr fi) p k = elim (Bool-cases fi.is_symlink) [
    | inl s ↦ absurd (cc (rw s at k))
    | inr s ↦ elim (Bool-cases fi.is_dir) [
      | inl d ↦
          let (uid, owner, ok, mode) =
            check_dir_owner-none dir w fi.mode fi.owner (rw (s, d) at k) in
          (fi, uid, p, s, d, owner, ok, rw (s, d) mode)
      | inr d ↦ absurd (cc (rw (s, d) at k))
    ]
  ]

  after_mkdir-none :
      (dir : Str) (r : W × Option E)
      → (after_mkdir dir r).1 ≡ none
      → (r.1 ≡ none) × IsUsable dir r.0 (after_mkdir dir r).0
  after_mkdir-none dir (w, some e) h = absurd (cc)
  after_mkdir-none dir (w, none) h = (refl, check_dir-none dir w (sys.lstat dir w) refl h)

  -- When `EnsureDir` returns no error, making the path with mode 0700 succeeded, and what is then there is a
  -- directory and no link, of the effective user or of root; and either its mode gives no permission to
  -- group and others and the state at the end is the one after the making, or its mode does, and the state
  -- at the end is the one after a change of the mode to 0700, which succeeded.
  pub ensure_dir-IsUsable :
      (dir : Str) (w : W)
      → (ensure_dir dir w).1 ≡ none
      → ((sys.mkdir_all dir 448 w).1 ≡ none)
        × IsUsable dir (sys.mkdir_all dir 448 w).0 (ensure_dir dir w).0
  unfolding ensure_dir
  ensure_dir-IsUsable dir w h = after_mkdir-none dir (sys.mkdir_all dir 448 w) h

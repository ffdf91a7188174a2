-- ===== src/Journal/Store/Loading.antt =====
-- internal/journal/store.go: `Load`, step by step, and the files it is to accept.
use mathlib.Core.Path.{subst}
use red_mpudp.Prelude.{
  ◌%◌, ◌≡◌, refl, sym, ◌∙◌, ap, ◌↔◌, ◌⊎◌, inl, inr, Bool, true, false, Option, none, some, arith,
}
use red_mpudp.Prelude.Bytes.{Str}
use red_mpudp.Journal.Schema.{Journal, JournalError, validate}
use red_mpudp.Journal.Store.{
  FileInfo, LoadError, Reader, check_file, after_validate, after_decode, after_read, after_check,
  after_stat, after_open, load,
}

module _ {F E : Type 0} (sys : Reader F E) where
  -- A regular file that gives no permission to group and others, with one link, of the caller or root.
  abbrev pub IsTrusted : FileInfo → Type 0
  IsTrusted fi =
      (fi.is_regular ≡ true)
      × (fi.mode % 64 ≡ 0)
      × (fi.links ≡ 1)
      × ((fi.uid ≡ sys.euid) ⊎ (fi.uid ≡ 0))

  -- The descriptor is of a trusted file, and what it holds is one valid journal and no more.
  abbrev pub IsStored : F → Journal → Type 0
  IsStored f j =
      (fi : FileInfo) × (text : Str) × (sys.stat f ≡ inr (fi, true))
      × IsTrusted fi
      × (sys.read_all f ≡ inr text)
      × (sys.decode text ≡ inr (j, true))
      × (validate j ≡ none)

  check_file_iff :
      (fi : FileInfo) (tells_owner : Bool)
      → (check_file sys fi tells_owner ≡ none) ↔ ((tells_owner ≡ true) × IsTrusted fi)
  unfolding check_file
  check_file_iff fi tells_owner = ground arith

  after_validate_iff :
      (i j : Journal) (e : Option JournalError)
      → (after_validate sys i e ≡ inr j) ↔ ((i ≡ j) × (e ≡ none))
  after_validate_iff i j none = (λ h. (cc, refl), λ h. ap inr h.0)
  after_validate_iff i j (some e) = (λ h. absurd (cc), λ h. absurd (cc))

  after_decode_iff :
      (r : E ⊎ (Journal × Bool)) (j : Journal)
      → (after_decode sys r ≡ inr j) ↔ ((r ≡ inr (j, true)) × (validate j ≡ none))
  after_decode_iff (inl e) j = (λ h. absurd (cc), λ h. absurd (cc))
  after_decode_iff (inr (i, true)) j =
      let k = after_validate_iff i j (validate i) in
      (
        λ h.
            let same = (k.0 h).0 in
            (ap (λ x. inr (x, true)) same, ap validate (sym same) ∙ (k.0 h).1),
        λ h.
            let pairs : ◌≡◌ {A = Journal × Bool} (i, true) (j, true) = let p = h.0 in cc in
            let same : i ≡ j = ap (λ q. q.0) pairs in k.1 (same, ap validate same ∙ h.1),
      )
  after_decode_iff (inr (i, false)) j = (
    λ h. absurd (cc),
    λ h.
        let pairs : ◌≡◌ {A = Journal × Bool} (i, false) (j, true) = let p = h.0 in cc in
        let flags : false ≡ true = ap (λ q. q.1) pairs in absurd (cc),
  )

  after_read_iff :
      (r : E ⊎ Str) (j : Journal)
      → (after_read sys r ≡ inr j)
        ↔ ((text : Str) × (r ≡ inr text) × (sys.decode text ≡ inr (j, true)) × (validate j ≡ none))
  after_read_iff (inl e) j = (λ h. absurd (cc), λ h. let p = h.1 in absurd (cc))
  after_read_iff (inr text) j =
      let k = after_decode_iff (sys.decode text) j in
      (
        λ h. (text, refl, (k.0 h).0, (k.0 h).1),
        λ h. let p = h.1 in let same : text ≡ h.0 = cc in k.1 (ap sys.decode same ∙ h.2, h.3),
      )

  after_check_iff :
      (f : F) (e : Option (LoadError E)) (j : Journal)
      → (after_check sys f e ≡ inr j) ↔ ((e ≡ none) × (after_read sys (sys.read_all f) ≡ inr j))
  after_check_iff f none j = (λ h. (refl, h), λ h. h.1)
  after_check_iff f (some e) j = (λ h. absurd (cc), λ h. absurd (cc))

  after_stat_iff :
      (f : F) (r : E ⊎ (FileInfo × Bool)) (j : Journal)
      → (after_stat sys f r ≡ inr j) ↔ (
          (fi : FileInfo) × (r ≡ inr (fi, true))
          × IsTrusted fi
          × (after_read sys (sys.read_all f) ≡ inr j))
  after_stat_iff f (inl e) j = (λ h. absurd (cc), λ h. let p = h.1 in absurd (cc))
  after_stat_iff f (inr (fi, tells)) j =
      let k = after_check_iff f (check_file sys fi tells) j in
      let c = check_file_iff fi tells in
      (
        λ h. let (ok, rest) = k.0 h in (fi, ap (λ b. inr (fi, b)) (c.0 ok).0, (c.0 ok).1, rest),
        λ h.
            let pairs : ◌≡◌ {A = FileInfo × Bool} (fi, tells) (h.0, true) = let p = h.1 in cc in
            let same : fi ≡ h.0 = ap (λ q. q.0) pairs in
            let tells_owner : tells ≡ true = ap (λ q. q.1) pairs in
            let trusted : IsTrusted fi = subst IsTrusted (sym same) h.2 in
            k.1 (c.1 (tells_owner, trusted), h.3),
      )

  after_open_iff :
      (r : E ⊎ F) (j : Journal)
      → (after_open sys r ≡ inr j) ↔ ((f : F) × (r ≡ inr f) × IsStored f j)
  after_open_iff (inl e) j = (λ h. absurd (cc), λ h. let p = h.1 in absurd (cc))
  after_open_iff (inr f) j =
      let k = after_stat_iff f (sys.stat f) j in
      let t = after_read_iff (sys.read_all f) j in
      (
        λ h.
            let (fi, stat, trusted, rest) = k.0 h in
            let (text, read, decoded, valid) = t.0 rest in
            (f, refl, (fi, text, stat, trusted, read, decoded, valid)),
        λ h.
            let p = h.1 in
            let same : f ≡ h.0 = cc in
            let (fi, text, stat, trusted, read, decoded, valid) =
              subst (λ x. IsStored x j) (sym same) h.2 in
            k.1 (fi, stat, trusted, t.1 (text, read, decoded, valid)),
      )

  -- `Load` returns a journal exactly when the path opens without following a symbolic link, the descriptor
  -- is of a regular file with one link, whose mode gives no permission to group and others (the six low bits
  -- are 0, whatever its owner may do), that the caller or root owns, and the file holds this journal, valid,
  -- and nothing after it.
  pub load_iff :
      (path : Str) (j : Journal)
      → (load sys path ≡ inr j) ↔ ((f : F) × (sys.open_nofollow path ≡ inr f) × IsStored f j)
  unfolding load
  load_iff path j = after_open_iff (sys.open_nofollow path) j

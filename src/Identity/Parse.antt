-- ===== src/Identity/Parse.antt =====
-- internal/identity/keyfile.go, `ParseKey`: the texts that it is to accept, and the keys that it gives.
pub mod RoundTrip
use mathlib.Core.Path.{subst}
use red_mpudp.Prelude.{
  zero, suc, ℕ, ◌+◌, ◌-◌, ◌*◌, ◌/◌, ◌%◌, ◌≤◌, ◌<◌, ◌≡◌, ◌≢◌, refl, sym, ◌∙◌, ap, ◌↔◌, ◌⊎◌, inl, inr,
  Bool, true, false, List, [], ◌∷◌, ◌++◌, append_assoc, Option, none, some, arith, All, ◌==◌, ◌||◌,
  ◌&&◌, leb, ltb, if◌then◌else◌, length, Bool-cases,
}
use red_mpudp.Prelude.Bytes.{Str, any_byte}
use red_mpudp.Identity.{
  KeyError, is_space, ends_with, init, is_empty, starts_with_space, ends_with_space, strip,
  after_decode, parse_body, parse_key, empty,
}
use red_mpudp.Identity.Base64.{value_of, decode, bytes_2, bytes_3, bytes_4}

-- No byte of the text is white space.
abbrev pub HasNoSpace : Str → Type 0
HasNoSpace s = any_byte is_space s ≡ false

ends_with-init : (c : ℕ) (s : Str) → ends_with c s ≡ true → s ≡ init s ++ c ∷ []
unfolding ends_with init
ends_with-init c [] h = cc
ends_with-init c (b ∷ []) h = ground arith
ends_with-init c (a ∷ b ∷ s) h = ap (λ t. a ∷ t) (ends_with-init c (b ∷ s) h)

ends_with-append : (c : ℕ) (s : Str) → ends_with c (s ++ c ∷ []) ≡ true
unfolding ends_with
ends_with-append c [] = ground arith
ends_with-append c (b ∷ []) = ground arith
ends_with-append c (a ∷ b ∷ s) = ends_with-append c (b ∷ s)

init-append : (c : ℕ) (s : Str) → init (s ++ c ∷ []) ≡ s
unfolding init
init-append c [] = refl
init-append c (b ∷ []) = refl
init-append c (a ∷ b ∷ s) = ap (λ t. a ∷ t) (init-append c (b ∷ s))

ends_with-HasNoSpace : (c : ℕ) (s : Str) → is_space c ≡ true → HasNoSpace s → ends_with c s ≡ false
unfolding ends_with any_byte
ends_with-HasNoSpace c [] hc h = refl
ends_with-HasNoSpace c (b ∷ []) hc h = ground arith
ends_with-HasNoSpace c (a ∷ b ∷ s) hc h = ends_with-HasNoSpace c (b ∷ s) hc (ground arith)

-- What `strip` takes off.
strip_cases :
    (raw : Str)
    → (raw ≡ strip raw) ⊎ (raw ≡ strip raw ++ 10 ∷ []) ⊎ (raw ≡ strip raw ++ 13 ∷ 10 ∷ [])
unfolding strip
strip_cases raw = elim (Bool-cases (ends_with 10 raw)) [
  | inr no_newline ↦ rw no_newline (inl refl)
  | inl newline ↦ elim (Bool-cases (ends_with 13 (init raw))) [
    | inr no_return ↦ rw (newline, no_return) (inr (inl (ends_with-init 10 raw newline)))
    | inl return ↦
        rw (newline, return)
          (inr (
            inr (
              ends_with-init 10 raw newline
              ∙ ap (λ t. t ++ 10 ∷ []) (ends_with-init 13 (init raw) return)
              ∙ append_assoc (init (init raw)) (13 ∷ []) (10 ∷ []))))
  ]
]

strip_bare : (s : Str) → HasNoSpace s → strip s ≡ s
unfolding strip
strip_bare s h = rw (ends_with-HasNoSpace 10 s refl h) refl

strip_newline : (s : Str) → HasNoSpace s → strip (s ++ 10 ∷ []) ≡ s
unfolding strip
strip_newline s h =
    rw (ends_with-append 10 s, init-append 10 s, ends_with-HasNoSpace 13 s refl h) refl

strip_return : (s : Str) → strip (s ++ 13 ∷ 10 ∷ []) ≡ s
unfolding strip
strip_return s =
    let e : s ++ 13 ∷ 10 ∷ [] ≡ (s ++ 13 ∷ []) ++ 10 ∷ [] =
      sym (append_assoc s (13 ∷ []) (10 ∷ [])) in
    rw
      (
        e,
        ends_with-append 10 (s ++ 13 ∷ []),
        init-append 10 (s ++ 13 ∷ []),
        ends_with-append 13 s,
        init-append 13 s,
      )
      refl

bytes_2-none : (x : Option ℕ) → bytes_2 x none ≡ none
bytes_2-none none = refl
bytes_2-none (some x) = refl

bytes_3-none : (x y : Option ℕ) → bytes_3 x y none ≡ none
bytes_3-none none y = refl
bytes_3-none (some x) none = refl
bytes_3-none (some x) (some y) = refl

bytes_4-none : (x y z w : Option ℕ) → bytes_4 x y z w none ≡ none
bytes_4-none none y z w = refl
bytes_4-none (some x) none z w = refl
bytes_4-none (some x) (some y) none w = refl
bytes_4-none (some x) (some y) (some z) none = refl
bytes_4-none (some x) (some y) (some z) (some w) = refl

bytes_4_bad : (x y z : Option ℕ) (r : Option (List ℕ)) → bytes_4 x y z none r ≡ none
bytes_4_bad none y z r = refl
bytes_4_bad (some x) none z r = refl
bytes_4_bad (some x) (some y) none r = refl
bytes_4_bad (some x) (some y) (some z) r = refl

value_of_padding : (b : ℕ) → (b == 61) ≡ true → value_of b ≡ none
unfolding value_of
value_of_padding b h = ground arith

-- A text that ends in the padding character does not decode.
decode_padded : (s : Str) → ends_with 61 s ≡ true → decode s ≡ none
unfolding decode ends_with
decode_padded [] h = cc
decode_padded (p ∷ []) h = refl
decode_padded (p ∷ q ∷ []) h = rw (value_of_padding q h) (bytes_2-none (value_of p))
decode_padded (p ∷ q ∷ r ∷ []) h =
    rw (value_of_padding r h) (bytes_3-none (value_of p) (value_of q))
decode_padded (p ∷ q ∷ r ∷ x ∷ []) h =
    rw (value_of_padding x h) (bytes_4_bad (value_of p) (value_of q) (value_of r) (some []))
decode_padded (p ∷ q ∷ r ∷ x ∷ y ∷ t) h =
    rw (decode_padded (y ∷ t) h) (bytes_4-none (value_of p) (value_of q) (value_of r) (value_of x))

newline-le-space : (s : Str) → HasNoSpace s → any_byte (λ b. b == 10) s ≡ false
unfolding any_byte
newline-le-space [] h = refl
newline-le-space (b ∷ s) h = ground (arith, newline-le-space s)

starts-le-space : (s : Str) → HasNoSpace s → starts_with_space s ≡ false
unfolding any_byte starts_with_space
starts-le-space [] h = refl
starts-le-space (b ∷ s) h = ground arith

ends-le-space : (s : Str) → HasNoSpace s → ends_with_space s ≡ false
unfolding any_byte ends_with_space
ends-le-space [] h = refl
ends-le-space (b ∷ []) h = ground arith
ends-le-space (a ∷ b ∷ s) h = ends-le-space (b ∷ s) (ground arith)

-- A body without white space that decodes to a key.
abbrev pub IsBody : Str → List ℕ → Type 0
IsBody body k = HasNoSpace body × (decode body ≡ some k) × (length k ≡ 32)

after_decode_iff :
    (d : Option (List ℕ)) (k : List ℕ) → (after_decode d ≡ inr k) ↔ ((d ≡ some k) × (length k ≡ 32))
after_decode_iff none k = (λ h. absurd (cc), λ h. absurd (cc))
after_decode_iff (some d) k = ground arith

parse_body_sound : (body : Str) (k : List ℕ) → parse_body body ≡ inr k → IsBody body k
unfolding parse_body
parse_body_sound body k h = ground (arith, after_decode_iff (decode body) k)

parse_body_complete : (body : Str) (k : List ℕ) → IsBody body k → parse_body body ≡ inr k
unfolding parse_body decode
parse_body_complete [] k h = ground arith
parse_body_complete (b ∷ s) k h = ground (
  arith,
  newline-le-space (b ∷ s) h.0,
  starts-le-space (b ∷ s) h.0,
  ends-le-space (b ∷ s) h.0,
  decode_padded (b ∷ s),
  (after_decode_iff (decode (b ∷ s)) k).1 (h.1, h.2),
)

-- The body alone, or with a newline, or with a carriage return and a newline.
abbrev pub IsKeyText : Str → Str → Type 0
IsKeyText raw body = (raw ≡ body) ⊎ (raw ≡ body ++ 10 ∷ []) ⊎ (raw ≡ body ++ 13 ∷ 10 ∷ [])

strip_lem : (raw body : Str) → HasNoSpace body → IsKeyText raw body → strip raw ≡ body
strip_lem raw body h (inl e) = ap strip e ∙ strip_bare body h
strip_lem raw body h (inr (inl e)) = ap strip e ∙ strip_newline body h
strip_lem raw body h (inr (inr e)) = ap strip e ∙ strip_return body

no_empty-IsBody : (k : List ℕ) → ¬ IsBody [] k
unfolding decode
no_empty-IsBody k h = ground arith

-- `ParseKey` gives a key exactly for its body, alone or followed by one line break (with or without a
-- carriage return), where the body has no white space and decodes to this key, of 32 bytes.
pub parse_key_iff :
    (raw : Str) (k : List ℕ)
    → (parse_key raw ≡ inr k) ↔ ((body : Str) × IsKeyText raw body × IsBody body k)
unfolding parse_key any_byte
parse_key_iff [] k = (
  λ h. absurd (cc),
  λ (body, text, parsed).
      let e = strip_lem [] body parsed.0 text in
      absurd (no_empty-IsBody k (subst (λ x. IsBody x k) (sym e ∙ strip_bare [] refl) parsed)),
)
parse_key_iff (b ∷ s) k = (
  λ h. (strip (b ∷ s), strip_cases (b ∷ s), parse_body_sound (strip (b ∷ s)) k h),
  λ (body, text, parsed).
      let e = strip_lem (b ∷ s) body parsed.0 text in
      ap parse_body e ∙ parse_body_complete body k parsed,
)

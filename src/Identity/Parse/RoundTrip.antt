-- ===== src/Identity/Parse/RoundTrip.antt =====
-- internal/identity: `ParseKey` of what `Encode` gives, and of texts that differ in the spare bits.
use mathlib.Core.List.{append_cancel_right}
use red_mpudp.Prelude.{
  ℕ, zero, suc, ◌+◌, ◌*◌, ◌/◌, ◌%◌, ◌<◌, ◌≡◌, ◌≢◌, refl, ◌∙◌, ap, inl, inr, false, List, [], ◌∷◌,
  ◌++◌, arith, All, length,
}
use red_mpudp.Prelude.Bytes.{Str, any_byte}
use red_mpudp.Identity.{is_space, parse_key, encode_key}
use red_mpudp.Identity.Base64.{char_of}
use red_mpudp.Identity.Base64.RoundTrip.{
  encode_with, encode-encode_with, decode-encode_with, char_of_injective,
}
use red_mpudp.Identity.Parse.{HasNoSpace, parse_key_iff}

char_of_space : (v : ℕ) → v < 64 → is_space (char_of v) ≡ false
unfolding char_of
char_of_space v h = ground arith

encode_with-HasNoSpace :
    (e : ℕ) (bs : List ℕ) → e < 4 → All (λ b. b < 256) bs → HasNoSpace (encode_with e bs)
unfolding encode_with any_byte
encode_with-HasNoSpace e [] he h = refl
encode_with-HasNoSpace e (a ∷ []) he h =
    ground
      (arith, char_of_space (a / 4) (omega arith), char_of_space (a % 4 * 16 + e) (omega arith))
encode_with-HasNoSpace e (a ∷ b ∷ []) he h = ground (
  arith,
  char_of_space (a / 4) (omega arith),
  char_of_space (a % 4 * 16 + b / 16) (omega arith),
  char_of_space (b % 16 * 4 + e) (omega arith),
)
encode_with-HasNoSpace e (a ∷ b ∷ c ∷ r) he h = ground (
  arith,
  char_of_space (a / 4) (omega arith),
  char_of_space (a % 4 * 16 + b / 16) (omega arith),
  char_of_space (b % 16 * 4 + c / 64) (omega arith),
  char_of_space (c % 64) (omega arith),
  encode_with-HasNoSpace e r he h.1.1.1,
)

-- A key as the source has it: 32 bytes.
abbrev pub IsKey : List ℕ → Type 0
IsKey k = (length k ≡ 32) × All (λ b. b < 256) k

parse-encode_with :
    (e : ℕ) (k : List ℕ) → e < 4 → IsKey k → parse_key (encode_with e k ++ 10 ∷ []) ≡ inr k
parse-encode_with e k he h = (parse_key_iff (encode_with e k ++ 10 ∷ []) k).1 (
  encode_with e k,
  inr (inl refl),
  (encode_with-HasNoSpace e k he h.1, decode-encode_with e k he h.1, h.0),
)

-- `ParseKey` undoes `Encode` at every key of 32 bytes.
pub parse_key-encode_key : (k : List ℕ) → IsKey k → parse_key (encode_key k) ≡ inr k
unfolding encode_key
parse_key-encode_key k h = rw (encode-encode_with k) (parse-encode_with 0 k (omega arith) h)

encode_with_differs :
    (n : ℕ) (bs : List ℕ)
    → length bs ≡ 3 * n + 2
    → All (λ b. b < 256) bs
    → encode_with 1 bs ≢ encode_with 0 bs
unfolding encode_with
encode_with_differs n [] l h e = omega arith
encode_with_differs n (a ∷ []) l h e = omega arith
encode_with_differs n (a ∷ b ∷ []) l h e =
    let last : char_of (b % 16 * 4 + 1) ≡ char_of (b % 16 * 4 + 0) = cc in
    let same =
      char_of_injective (b % 16 * 4 + 1) (b % 16 * 4 + 0) (omega arith) (omega arith) last in
    omega arith
encode_with_differs zero (a ∷ b ∷ c ∷ r) l h e = omega arith
encode_with_differs (suc n) (a ∷ b ∷ c ∷ r) l h e =
    encode_with_differs n r (omega arith) h.1.1.1 (cc)

-- For every key of 32 bytes there is a text without white space other than the one that `Encode` gives
-- before its line break, and `ParseKey` takes it for the same key: the spare bits of the last character are
-- not checked.
pub parse_key_lenient :
    (k : List ℕ)
    → IsKey k
    → (body : Str) × (body ++ 10 ∷ [] ≢ encode_key k) × HasNoSpace body × (parse_key body ≡ inr k)
unfolding encode_key
parse_key_lenient k h =
    let spaceless = encode_with-HasNoSpace 1 k (omega arith) h.1 in
    (
      encode_with 1 k,
      λ e. encode_with_differs 10 k (omega arith) h.1 (
          append_cancel_right (encode_with 1 k) (encode_with 0 k) (10 ∷ [])
            (e ∙ ap (λ t. t ++ 10 ∷ []) (encode-encode_with k))),
      spaceless,
      (parse_key_iff (encode_with 1 k) k).1
          (encode_with 1 k, inl refl, (spaceless, decode-encode_with 1 k (omega arith) h.1, h.0)),
    )

-- ===== src/Identity/Base64/RoundTrip.antt =====
-- encoding/base64: decoding what was encoded, with any value of the spare bits.
use red_mpudp.Prelude.{ℕ, ◌+◌, ◌*◌, ◌/◌, ◌%◌, ◌<◌, ◌≡◌, refl, List, [], ◌∷◌, some, arith, All}
use red_mpudp.Prelude.Bytes.{Str}
use red_mpudp.Identity.Base64.{char_of, value_of, encode, decode}

pub value_of-char_of : (v : ℕ) → v < 64 → value_of (char_of v) ≡ some v
unfolding value_of char_of
value_of-char_of v h = ground arith

pub char_of_injective : (v w : ℕ) → v < 64 → w < 64 → char_of v ≡ char_of w → v ≡ w
unfolding char_of
char_of_injective v w hv hw e = ground arith

-- The encoding with the spare bits of the last character set to `e`.
unfoldable pub encode_with : ℕ → List ℕ → Str
encode_with e [] = []
encode_with e (a ∷ []) = char_of (a / 4) ∷ char_of (a % 4 * 16 + e) ∷ []
encode_with e (a ∷ b ∷ []) =
    char_of (a / 4) ∷ char_of (a % 4 * 16 + b / 16) ∷ char_of (b % 16 * 4 + e) ∷ []
encode_with e (a ∷ b ∷ c ∷ r) =
    char_of (a / 4)
    ∷ char_of (a % 4 * 16 + b / 16)
    ∷ char_of (b % 16 * 4 + c / 64)
    ∷ char_of (c % 64)
    ∷ encode_with e r

pub encode-encode_with : (bs : List ℕ) → encode bs ≡ encode_with 0 bs
unfolding encode encode_with
encode-encode_with [] = refl
encode-encode_with (a ∷ []) = ground arith
encode-encode_with (a ∷ b ∷ []) = ground arith
encode-encode_with (a ∷ b ∷ c ∷ r) = rw (encode-encode_with r) refl

pub decode-encode_with :
    (e : ℕ) (bs : List ℕ) → e < 4 → All (λ b. b < 256) bs → decode (encode_with e bs) ≡ some bs
unfolding decode encode_with
decode-encode_with e [] he h = refl
decode-encode_with e (a ∷ []) he h =
    ground (
      arith,
      value_of-char_of (a / 4) (omega arith),
      value_of-char_of (a % 4 * 16 + e) (omega arith),
    )
decode-encode_with e (a ∷ b ∷ []) he h = ground (
  arith,
  value_of-char_of (a / 4) (omega arith),
  value_of-char_of (a % 4 * 16 + b / 16) (omega arith),
  value_of-char_of (b % 16 * 4 + e) (omega arith),
)
decode-encode_with e (a ∷ b ∷ c ∷ r) he h = ground (
  arith,
  value_of-char_of (a / 4) (omega arith),
  value_of-char_of (a % 4 * 16 + b / 16) (omega arith),
  value_of-char_of (b % 16 * 4 + c / 64) (omega arith),
  value_of-char_of (c % 64) (omega arith),
  decode-encode_with e r he h.1.1.1,
)

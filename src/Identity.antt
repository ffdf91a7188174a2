-- ===== src/Identity.antt =====
-- internal/identity/keyfile.go and keygen.go: the text of a key, and the files that hold keys. A key is a
-- list of bytes. The calls on files are parameters.
pub mod Base64
pub mod Parse
pub mod Files
pub mod Derive
pub mod Tests
use red_mpudp.Prelude.{
  ℕ, ◌+◌, Bool, true, false, List, [], ◌∷◌, ◌++◌, Option, none, some, ◌==◌, ◌||◌, if◌then◌else◌,
  length, ◌⊎◌, inl, inr,
}
use red_mpudp.Prelude.Bytes.{Str, any_byte}
use red_mpudp.Identity.Base64.{encode, decode}

abbrev pub key_len : ℕ
key_len = 32

pub data KeyError : Type 0 where
  empty surrounding_space padded not_base64 interior_newline interior_space : KeyError
  wrong_length : ℕ → KeyError

abbrev pub is_space : ℕ → Bool
is_space b = b == 32 || b == 9 || b == 13 || b == 10 || b == 11 || b == 12

-- Whether the last byte is this one, and the bytes before the last.
unfoldable pub ends_with : ℕ → Str → Bool
ends_with c [] = false
ends_with c (b ∷ []) = b == c
ends_with c (a ∷ b ∷ s) = ends_with c (b ∷ s)

unfoldable pub init : Str → Str
init [] = []
init (b ∷ []) = []
init (a ∷ b ∷ s) = a ∷ init (b ∷ s)

abbrev pub is_empty : Str → Bool
is_empty [] = true
is_empty (b ∷ s) = false

-- `isSpace` of the first and of the last byte.
unfoldable pub starts_with_space : Str → Bool
starts_with_space [] = false
starts_with_space (b ∷ s) = is_space b

unfoldable pub ends_with_space : Str → Bool
ends_with_space [] = false
ends_with_space (b ∷ []) = is_space b
ends_with_space (a ∷ b ∷ s) = ends_with_space (b ∷ s)

-- One trailing newline, with a carriage return before it, is taken off.
unfoldable pub strip : Str → Str
strip raw =
    if ends_with 10 raw
    then (if ends_with 13 (init raw) then init (init raw) else init raw)
    else raw

abbrev pub after_decode : Option (List ℕ) → KeyError ⊎ List ℕ
after_decode none = inl not_base64
after_decode (some k) = if length k == key_len then inr k else inl (wrong_length (length k))

-- `ParseKey` from the test of the body on.
unfoldable pub parse_body : Str → KeyError ⊎ List ℕ
parse_body body =
    if is_empty body
    then inl empty
    else if any_byte (λ b. b == 10) body
    then inl interior_newline
    else if starts_with_space body || ends_with_space body
    then inl surrounding_space
    else if any_byte is_space body
    then inl interior_space
    else if ends_with 61 body
    then inl padded
    else after_decode (decode body)

unfoldable pub parse_key : Str → KeyError ⊎ List ℕ
parse_key raw = if is_empty raw then inl empty else parse_body (strip raw)

-- `Encode`.
unfoldable pub encode_key : List ℕ → Str
encode_key key = encode key ++ 10 ∷ []

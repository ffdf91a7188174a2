-- ===== src/Identity/Base64.antt =====
-- The unpadded standard encoding of Go's encoding/base64, as internal/identity uses it: `EncodeToString`,
-- and `DecodeString` of a text without line breaks. The decoder is not strict: the bits of the last
-- character that carry no data may be anything.
pub mod RoundTrip
use red_mpudp.Prelude.{
  ℕ, ◌+◌, ◌-◌, ◌*◌, ◌/◌, ◌%◌, List, [], ◌∷◌, Option, none, some, ◌==◌, ltb, ◌&&◌, leb,
  if◌then◌else◌,
}
use red_mpudp.Prelude.Bytes.{Str}

-- The alphabet: A-Z, a-z, 0-9, + and /.
unfoldable pub char_of : ℕ → ℕ
char_of v =
    if ltb v 26
    then v + 65
    else if ltb v 52
    then v + 71
    else if ltb v 62
    then v - 4
    else if v == 62
    then 43
    else 47

unfoldable pub value_of : ℕ → Option ℕ
value_of b =
    if leb 65 b && leb b 90
    then some (b - 65)
    else if leb 97 b && leb b 122
    then some (b - 71)
    else if leb 48 b && leb b 57
    then some (b + 4)
    else if b == 43
    then some 62
    else if b == 47
    then some 63
    else none

unfoldable pub encode : List ℕ → Str
encode [] = []
encode (a ∷ []) = char_of (a / 4) ∷ char_of (a % 4 * 16) ∷ []
encode (a ∷ b ∷ []) = char_of (a / 4) ∷ char_of (a % 4 * 16 + b / 16) ∷ char_of (b % 16 * 4) ∷ []
encode (a ∷ b ∷ c ∷ r) =
    char_of (a / 4)
    ∷ char_of (a % 4 * 16 + b / 16)
    ∷ char_of (b % 16 * 4 + c / 64)
    ∷ char_of (c % 64)
    ∷ encode r

-- The bytes of two, three and four characters, by their values.
abbrev pub bytes_2 : Option ℕ → Option ℕ → Option (List ℕ)
bytes_2 (some x) (some y) = some ((x * 4 + y / 16) ∷ [])
bytes_2 (some x) none = none
bytes_2 none y = none

abbrev pub bytes_3 : Option ℕ → Option ℕ → Option ℕ → Option (List ℕ)
bytes_3 (some x) (some y) (some z) = some ((x * 4 + y / 16) ∷ (y % 16 * 16 + z / 4) ∷ [])
bytes_3 (some x) (some y) none = none
bytes_3 (some x) none z = none
bytes_3 none y z = none

abbrev pub bytes_4 : Option ℕ → Option ℕ → Option ℕ → Option ℕ → Option (List ℕ) → Option (List ℕ)
bytes_4 (some x) (some y) (some z) (some w) (some r) =
    some ((x * 4 + y / 16) ∷ (y % 16 * 16 + z / 4) ∷ (z % 4 * 64 + w) ∷ r)
bytes_4 (some x) (some y) (some z) (some w) none = none
bytes_4 (some x) (some y) (some z) none r = none
bytes_4 (some x) (some y) none w r = none
bytes_4 (some x) none z w r = none
bytes_4 none y z w r = none

unfoldable pub decode : Str → Option (List ℕ)
decode [] = some []
decode (p ∷ []) = none
decode (p ∷ q ∷ []) = bytes_2 (value_of p) (value_of q)
decode (p ∷ q ∷ r ∷ []) = bytes_3 (value_of p) (value_of q) (value_of r)
decode (p ∷ q ∷ r ∷ s ∷ t) = bytes_4 (value_of p) (value_of q) (value_of r) (value_of s) (decode t)

-- ===== src/Identity/Tests.antt =====
-- internal/identity at a concrete key and file.
use red_mpudp.Prelude.{
  ℕ, ◌≡◌, ◌≢◌, refl, ◌↔◌, inr, List, [], ◌∷◌, ◌++◌, none, arith, replicate, true,
}
use red_mpudp.Prelude.Bytes.{Str, codes, str_eq}
use red_mpudp.Identity.{parse_key, encode_key}
use red_mpudp.Identity.Base64.{encode, char_of}
use red_mpudp.Identity.Parse.{IsKeyText, IsBody, HasNoSpace, parse_key_iff}
use red_mpudp.Identity.Parse.RoundTrip.{IsKey, parse_key_lenient}
use red_mpudp.Identity.Files.{
  FileSystem, load_private_key_file, write_private_key_file, write_exclusive,
  load-write_private_key_file,
}
use red_mpudp.Identity.Derive.{
  Crypto, Schedule, derive_schedule, copy_into, preauth_info, noise_psk_info,
}

abbrev pub key : List ℕ
key = 251 ∷ 240 ∷ replicate 30 7

pub key-IsKey : IsKey key
key-IsKey = omega arith

encoded : encode (251 ∷ 240 ∷ 7 ∷ 1 ∷ 2 ∷ []) ≡ codes "+/AHAQI"
unfolding encode char_of
encoded = refl

parse_key_iff_example :
    (parse_key (codes "+/AHAQI" ++ 13 ∷ 10 ∷ []) ≡ inr key)
    ↔ ((body : Str) × IsKeyText (codes "+/AHAQI" ++ 13 ∷ 10 ∷ []) body × IsBody body key)
parse_key_iff_example = parse_key_iff (codes "+/AHAQI" ++ 13 ∷ 10 ∷ []) key

parse_key_lenient_example :
    (body : Str) × (body ++ 10 ∷ [] ≢ encode_key key) × HasNoSpace body × (parse_key body ≡ inr key)
parse_key_lenient_example = parse_key_lenient key key-IsKey

-- One file: its mode, and its text.
abbrev pub file_system : FileSystem (ℕ × Str) ℕ
file_system = record {
  stat = λ path w. inr w.0;
  read_file = λ path w. inr w.1;
  open_exclusive = λ path mode w. ((mode, []), none);
  exists_error = λ e. true;
  write = λ path text w. ((w.0, text), none);
  sync = λ path w. (w, none);
  close = λ path w. (w, none);
}

load-write_private_key_file_example :
    load_private_key_file file_system
      (codes "k")
      (write_private_key_file file_system (codes "k") key (0, [])).0
    ≡ inr key
unfolding write_private_key_file write_exclusive
load-write_private_key_file_example =
    load-write_private_key_file file_system (λ path text w ok. (384, refl, refl, refl)) (codes "k")
      key (0, []) key-IsKey refl

-- The info text alone decides the key.
abbrev crypto : Crypto ℕ
crypto = record { sha256 = λ s. s; extract = λ psk salt. inr psk; expand = λ prk info n. inr info }

abbrev schedule : Schedule
schedule = record {
  preauth_key = copy_into 32 preauth_info;
  noise_psk = copy_into 32 noise_psk_info;
}

schedule_derived : derive_schedule crypto [] ≡ inr schedule
unfolding derive_schedule str_eq copy_into
schedule_derived = refl

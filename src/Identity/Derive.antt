-- ===== src/Identity/Derive.antt =====
-- internal/identity/derive.go: the key schedule. SHA-256 and the two steps of HKDF are parameters.
use red_mpudp.Prelude.{ℕ, zero, suc, ◌≡◌, ◌≢◌, ◌⊎◌, inl, inr, List, [], ◌∷◌, arith, if◌then◌else◌}
use red_mpudp.Prelude.Bytes.{Str, codes, str_eq, str_eq_iff}

-- `sha256.Sum256`, `hkdf.Extract` of a secret and a salt, and `hkdf.Expand` of a key, a text and a length.
pub record Crypto (E : Type 0) : Type 0 where
  pub sha256 : List ℕ → List ℕ
  pub extract : List ℕ → List ℕ → E ⊎ List ℕ
  pub expand : List ℕ → Str → ℕ → E ⊎ List ℕ

abbrev pub key_schedule_salt : Str
key_schedule_salt = codes "RED_MPUDP/v1/key-schedule"

abbrev pub preauth_info : Str
preauth_info = codes "RED_MPUDP/v1/preauth"

abbrev pub noise_psk_info : Str
noise_psk_info = codes "RED_MPUDP/v1/noise-psk"

-- `copy` into an array of `n` zeros.
unfoldable pub copy_into : ℕ → List ℕ → List ℕ
copy_into zero s = []
copy_into (suc n) [] = 0 ∷ copy_into n []
copy_into (suc n) (b ∷ s) = b ∷ copy_into n s

pub record Schedule : Type 0 where
  pub preauth_key : List ℕ
  pub noise_psk : List ℕ

pub data ScheduleError (E : Type 0) : Type 0 where
  hkdf : E → ScheduleError E
  identical_keys : ScheduleError E

module _ {E : Type 0} (crypto : Crypto E) where
  unfoldable pub derive_peer_id : List ℕ → List ℕ
  derive_peer_id client_pub = copy_into 8 (crypto.sha256 client_pub)

  abbrev compare_keys : List ℕ → List ℕ → ScheduleError E ⊎ Schedule
  compare_keys a b =
      if str_eq a b then inl identical_keys else inr (record { preauth_key = a; noise_psk = b })

  abbrev after_noise : List ℕ → E ⊎ List ℕ → ScheduleError E ⊎ Schedule
  after_noise preauth (inl e) = inl (hkdf e)
  after_noise preauth (inr noise) = compare_keys (copy_into 32 preauth) (copy_into 32 noise)

  abbrev after_preauth : List ℕ → E ⊎ List ℕ → ScheduleError E ⊎ Schedule
  after_preauth prk (inl e) = inl (hkdf e)
  after_preauth prk (inr preauth) = after_noise preauth (crypto.expand prk noise_psk_info 32)

  abbrev after_extract : E ⊎ List ℕ → ScheduleError E ⊎ Schedule
  after_extract (inl e) = inl (hkdf e)
  after_extract (inr prk) = after_preauth prk (crypto.expand prk preauth_info 32)

  unfoldable pub derive_schedule : List ℕ → ScheduleError E ⊎ Schedule
  derive_schedule psk = after_extract (crypto.extract psk (crypto.sha256 key_schedule_salt))

  compare_keys_lem :
      (a b : List ℕ) (s : Schedule) → compare_keys a b ≡ inr s → s.preauth_key ≢ s.noise_psk
  compare_keys_lem a b s h = ground (arith, str_eq_iff a b)

  after_noise_lem :
      (p : List ℕ) (r : E ⊎ List ℕ) (s : Schedule)
      → after_noise p r ≡ inr s
      → s.preauth_key ≢ s.noise_psk
  after_noise_lem p (inl e) s h = absurd (cc)
  after_noise_lem p (inr n) s h = compare_keys_lem (copy_into 32 p) (copy_into 32 n) s h

  after_preauth_lem :
      (prk : List ℕ) (r : E ⊎ List ℕ) (s : Schedule)
      → after_preauth prk r ≡ inr s
      → s.preauth_key ≢ s.noise_psk
  after_preauth_lem prk (inl e) s h = absurd (cc)
  after_preauth_lem prk (inr p) s h = after_noise_lem p (crypto.expand prk noise_psk_info 32) s h

  after_extract_lem :
      (r : E ⊎ List ℕ) (s : Schedule) → after_extract r ≡ inr s → s.preauth_key ≢ s.noise_psk
  after_extract_lem (inl e) s h = absurd (cc)
  after_extract_lem (inr prk) s h = after_preauth_lem prk (crypto.expand prk preauth_info 32) s h

  -- A schedule that is returned has two different keys, whatever HKDF gives.
  pub derive_schedule_ne :
      (psk : List ℕ) (s : Schedule) → derive_schedule psk ≡ inr s → s.preauth_key ≢ s.noise_psk
  unfolding derive_schedule
  derive_schedule_ne psk s h =
      after_extract_lem (crypto.extract psk (crypto.sha256 key_schedule_salt)) s h

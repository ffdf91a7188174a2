-- ===== src/Reason.antt =====
-- internal/reason/reason.go: the four closed sets of reason codes. A code is a `uint8`; its texts are those
-- of the source, and `strconv.Itoa` is a parameter.
pub mod Labels
pub mod Tests
use red_mpudp.Prelude.{ℕ, Bool, List, [], ◌∷◌, ◌++◌, ltb, if◌then◌else◌, length, get_or}
use red_mpudp.Prelude.Bytes.{Str, codes}

abbrev pub drop_text : List Str
drop_text =
    codes "unspecified"
    ∷ codes "queue_full_packets"
    ∷ codes "queue_full_bytes"
    ∷ codes "replica_deadline"
    ∷ codes "duplicate"
    ∷ codes "outside_window"
    ∷ codes "decrypt_failed"
    ∷ codes "short_packet"
    ∷ codes "unknown_path"
    ∷ codes "no_route"
    ∷ codes "inner_too_large"
    ∷ codes "path_down"
    ∷ codes "shutting_down"
    ∷ []

abbrev pub handshake_text : List Str
handshake_text =
    codes "unspecified"
    ∷ codes "bad_magic"
    ∷ codes "bad_version"
    ∷ codes "malformed"
    ∷ codes "decrypt_failed"
    ∷ codes "unknown_peer"
    ∷ codes "bad_psk"
    ∷ codes "replayed"
    ∷ codes "timeout"
    ∷ codes "rate_limited"
    ∷ codes "shutting_down"
    ∷ []

abbrev pub close_text : List Str
close_text =
    codes "unspecified"
    ∷ codes "local_shutdown"
    ∷ codes "config_reload"
    ∷ codes "peer_gone"
    ∷ codes "idle_timeout"
    ∷ codes "key_expired"
    ∷ codes "handshake_failed"
    ∷ codes "all_paths_down"
    ∷ codes "protocol_error"
    ∷ codes "nonce_exhausted"
    ∷ []

abbrev pub health_text : List Str
health_text =
    codes "unspecified"
    ∷ codes "probing"
    ∷ codes "up"
    ∷ codes "degraded"
    ∷ codes "down"
    ∷ codes "recovered"
    ∷ codes "retired"
    ∷ []

-- The sentinels: one past the last code of each set.
abbrev pub drop_max : ℕ
drop_max = 13

abbrev pub handshake_max : ℕ
handshake_max = 11

abbrev pub close_max : ℕ
close_max = 10

abbrev pub health_max : ℕ
health_max = 7

-- `Valid` of the four types.
abbrev pub valid_drop : ℕ → Bool
valid_drop r = ltb r drop_max

abbrev pub valid_handshake : ℕ → Bool
valid_handshake f = ltb f handshake_max

abbrev pub valid_close : ℕ → Bool
valid_close r = ltb r close_max

abbrev pub valid_health : ℕ → Bool
valid_health t = ltb t health_max

module _ (itoa : ℕ → Str) where
  unfoldable pub lookup : ℕ → List Str → Str
  lookup v table =
      if ltb v (length table) then get_or table v [] else codes "unknown(" ++ (itoa v ++ codes ")")

  -- `String` of the four types.
  unfoldable pub drop_string : ℕ → Str
  drop_string r = lookup r drop_text

  unfoldable pub handshake_string : ℕ → Str
  handshake_string f = lookup f handshake_text

  unfoldable pub close_string : ℕ → Str
  close_string r = lookup r close_text

  unfoldable pub health_string : ℕ → Str
  health_string t = lookup t health_text

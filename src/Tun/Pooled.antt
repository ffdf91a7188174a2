-- ===== src/Tun/Pooled.antt =====
-- internal/tun/pooled.go: packets in pooled buffers, on the device of Linux. `none` is a panic. A read that
-- fails leaves the bytes of the buffer as they were.
pub mod Release
pub mod Tests
use red_mpudp.Prelude.{Bool, ℕ, zero, suc, List, [], ◌∷◌, Option, none, some, length, ◌⊎◌, inl, inr}
use red_mpudp.Prelude.Int.{ℤ, pos}
use red_mpudp.Prelude.Bytes.{Str}
use red_mpudp.Tun.Device.{System, Device, IoError, read_packet, write_packet}
use red_mpudp.Packetbuf.{Pool, buffer, write_buffer, bytes, resize, release, cap}

-- The bytes of a packet over those of an array.
unfoldable pub overwrite : Str → List ℕ → List ℕ
overwrite [] xs = xs
overwrite (b ∷ packet) [] = []
overwrite (b ∷ packet) (x ∷ xs) = b ∷ overwrite packet xs

module _ {W E : Type 0} (debug : Bool) (sys : System W E) where
  abbrev pub ReadResult : Type 0
  ReadResult = Device W E × (Pool × (IoError E ⊎ ℕ))

  abbrev pub after_release : Device W E → IoError E → Option Pool → Option ReadResult
  after_release d e none = none
  after_release d e (some pool) = some (d, (pool, inl e))

  abbrev pub after_shrink : Device W E → ℕ → Option Pool → Option ReadResult
  after_shrink d n none = none
  after_shrink d n (some pool) = some (d, (pool, inr n))

  -- The bytes the device has put into the buffer.
  abbrev pub filled : ℕ → Str → Pool → Pool
  filled p packet pool =
      write_buffer p (record (buffer pool p) { array = overwrite packet (buffer pool p).array })
        pool

  abbrev pub after_read : ℕ → Pool → Device W E × (IoError E ⊎ Str) → Option ReadResult
  after_read p pool (d, inl e) = after_release d e (release debug p pool)
  after_read p pool (d, inr packet) =
      after_shrink d (length packet) (resize debug p (pos (length packet)) (filled p packet pool))

  abbrev pub after_bytes : Device W E → ℕ → Pool → Option (List ℕ) → Option ReadResult
  after_bytes d p pool none = none
  after_bytes d p pool (some buf) = after_read p pool (read_packet sys d (length buf))

  abbrev pub after_grow : Device W E → ℕ → Option Pool → Option ReadResult
  after_grow d p none = none
  after_grow d p (some pool) = after_bytes d p pool (bytes debug p pool)

  unfoldable pub read_into : Device W E → ℕ → Pool → Option ReadResult
  read_into d p pool = after_grow d p (resize debug p (pos (cap p pool)) pool)

  abbrev pub WriteResult : Type 0
  WriteResult = Device W E × (Pool × (ℕ × Option (IoError E)))

  abbrev pub after_write : Device W E × (ℕ × Option (IoError E)) → Option Pool → Option WriteResult
  after_write r none = none
  after_write (d, r) (some pool) = some (d, (pool, r))

  -- A panic of `Bytes` stays a panic, whatever the deferred `Release` does.
  abbrev pub after_contents : Device W E → ℕ → Pool → Option Str → Option WriteResult
  after_contents d p pool none = none
  after_contents d p pool (some packet) =
      after_write (write_packet sys d packet) (release debug p pool)

  unfoldable pub write_from : Device W E → ℕ → Pool → Option WriteResult
  write_from d p pool = after_contents d p pool (bytes debug p pool)

-- ===== src/Tun/Pooled/Release.antt =====
-- internal/tun/pooled.go: what becomes of the buffer.
use red_mpudp.Prelude.{
  ℕ, zero, suc, ◌≤◌, ◌≡◌, refl, sym, ◌∙◌, ap, ◌⊎◌, inl, inr, Bool, true, false, List, [], ◌∷◌,
  Option, some, length, arith, ◌||◌, Bool-cases,
}
use red_mpudp.Prelude.Int.{pos, ltb_ℤ}
use red_mpudp.Prelude.Bytes.{Str}
use red_mpudp.Tun.Device.{System, Device, IoError, read_packet, write_packet}
use red_mpudp.Tun.Run.{read_packet_iff}
use red_mpudp.Tun.Pooled.{
  overwrite, read_into, write_from, filled, after_read, after_release, after_shrink, ReadResult,
}
use red_mpudp.Packetbuf.{Buffer, Pool, buffer, write_buffer, bytes, resize, cap, take, put}
use red_mpudp.Packetbuf.Owned.{
  IsHeld, Elsewhere, Elsewhere-set, buffer-write_buffer, write_buffer-IsHeld,
}
use red_mpudp.Packetbuf.Uses.{release-put}

take-length : (xs : List ℕ) (n : ℕ) → length xs ≡ n → take n xs ≡ xs
unfolding take
take-length [] zero h = refl
take-length [] (suc n) h = refl
take-length (x ∷ xs) zero h = absurd (omega (arith, h))
take-length (x ∷ xs) (suc n) h = ap (λ l. x ∷ l) (take-length xs n (omega (arith, h)))

take-overwrite :
    (packet : Str) (xs : List ℕ)
    → length packet ≤ length xs
    → take (length packet) (overwrite packet xs) ≡ packet
unfolding take overwrite
take-overwrite [] xs h = refl
take-overwrite (b ∷ packet) [] h = absurd (omega arith)
take-overwrite (b ∷ packet) (x ∷ xs) h = ap (λ l. b ∷ l) (take-overwrite packet xs (omega arith))

length-overwrite : (packet : Str) (xs : List ℕ) → length (overwrite packet xs) ≡ length xs
unfolding overwrite
length-overwrite [] xs = refl
length-overwrite (b ∷ packet) [] = refl
length-overwrite (b ∷ packet) (x ∷ xs) = ap suc (length-overwrite packet xs)

-- The buffer lies in its pool once more than before, and the others are as they were.
abbrev pub IsReleased : ℕ → Pool → Pool → Type 0
IsReleased p pool pool' =
    (pool'.free ≡ record { index = (buffer pool p).pool_idx; pointer = p } ∷ pool.free)
    × ((buffer pool' p).released ≡ true)
    × Elsewhere p pool pool'

-- The buffer is still held, and the pools and the other buffers are as they were.
abbrev pub IsKept : ℕ → Pool → Pool → Type 0
IsKept p pool pool' = (pool'.free ≡ pool.free) × IsHeld pool' p × Elsewhere p pool pool'

module _ (debug : Bool) where
  bytes_held :
      (p : ℕ) (pool : Pool)
      → IsHeld pool p
      → bytes debug p pool ≡ some (take (buffer pool p).len (buffer pool p).array)
  unfolding bytes
  bytes_held p pool (a, b, c, d, l) = elim (Bool-cases debug) [
    | inl t ↦ rw (t, b) refl
    | inr f ↦ rw f refl
  ]

  resize_held :
      (p n : ℕ) (pool : Pool)
      → IsHeld pool p
      → n ≤ (buffer pool p).class
      → resize debug p (pos n) pool
        ≡ some (write_buffer p (record (buffer pool p) { len = n }) pool)
  unfolding resize
  resize_held p n pool (a, b, c, d, l) h =
      let fits : ltb_ℤ (pos n) (pos 0) || ltb_ℤ (pos (buffer pool p).class) (pos n) ≡ false =
        ground arith in
      elim (Bool-cases debug) [ inl t ↦ rw (t, b, fits) refl | inr f ↦ rw (f, fits) refl ]

  put-IsReleased :
      (p : ℕ) (pool : Pool) → IsHeld pool p → IsReleased p pool (put p (buffer pool p) pool)
  put-IsReleased p pool h =
      let b = buffer pool p in
      let x = record b { released = true; len = b.class; pooled = false } in
      (
        refl,
        ap (λ y. y.released) (buffer-write_buffer p x pool h),
        Elsewhere-set p x (put p b pool).free pool,
      )

Elsewhere-trans : (p : ℕ) (a b c : Pool) → Elsewhere p a b → Elsewhere p b c → Elsewhere p a c
Elsewhere-trans p a b c f g q ne h =
    let (lt, same) = f q ne h in let (lt2, same2) = g q ne lt in (lt2, same2 ∙ same)

Elsewhere-write_buffer :
    (p : ℕ) (x : Buffer) (pool : Pool) → Elsewhere p pool (write_buffer p x pool)
Elsewhere-write_buffer p x pool = Elsewhere-set p x pool.free pool

-- The buffer still held, with this array and this length, and all else as it was.
abbrev Written : ℕ → List ℕ → ℕ → Pool → Pool → Type 0
Written p array len pool pool' =
    IsKept p pool pool'
    × ((buffer pool' p).array ≡ array)
    × ((buffer pool' p).len ≡ len)
    × ((buffer pool' p).class ≡ (buffer pool p).class)
    × ((buffer pool' p).pool_idx ≡ (buffer pool p).pool_idx)

write_buffer-Written :
    (p len : ℕ) (array : List ℕ) (pool : Pool)
    → IsHeld pool p
    → length array ≡ length (buffer pool p).array
    → Written p array len pool
        (write_buffer p (record (buffer pool p) { array = array; len = len }) pool)
write_buffer-Written p len array pool h same =
    let x = record (buffer pool p) { array = array; len = len } in
    let here = buffer-write_buffer p x pool h in
    (
      (
        refl,
        write_buffer-IsHeld p x pool h (refl, refl, refl, refl, same),
        Elsewhere-write_buffer p x pool,
      ),
      ap (λ b. b.array) here,
      ap (λ b. b.len) here,
      ap (λ b. b.class) here,
      ap (λ b. b.pool_idx) here,
    )

module _ (debug : Bool) where
  resize-Written :
      (p n : ℕ) (pool : Pool)
      → IsHeld pool p
      → n ≤ (buffer pool p).class
      → (pool' : Pool) × (resize debug p (pos n) pool ≡ some pool')
        × Written p (buffer pool p).array n pool pool'
  resize-Written p n pool h le = (
    write_buffer p (record (buffer pool p) { len = n }) pool,
    resize_held debug p n pool h le,
    write_buffer-Written p n (buffer pool p).array pool h refl,
  )

module _ {W E : Type 0} (debug : Bool) (sys : System W E) where
  -- What `ReadInto` makes of a read of the device: it passes an error on and releases the buffer; it passes
  -- the length of a packet on, and the buffer holds the packet and is still the caller's.
  abbrev pub ReadDone :
      ℕ → Pool → Device W E × (IoError E ⊎ Str) → Option (ReadResult debug sys) → Type 0
  ReadDone p pool (d, inl e) out =
      (pool' : Pool) × (out ≡ some (d, (pool', inl e))) × IsReleased p pool pool'
  ReadDone p pool (d, inr packet) out =
      (pool' : Pool) × (out ≡ some (d, (pool', inr (length packet))))
      × IsKept p pool pool'
      × (bytes debug p pool' ≡ some packet)

  after_read-Done :
      (p : ℕ) (pool : Pool) (r : Device W E × (IoError E ⊎ Str))
      → IsHeld pool p
      → ((packet : Str) → r.1 ≡ inr packet → length packet ≤ (buffer pool p).class)
      → ReadDone p pool r (after_read debug sys p pool r)
  after_read-Done p pool (d, inl e) h fits = (
    put p (buffer pool p) pool,
    ap (after_release debug sys d e) (release-put debug p pool h),
    put-IsReleased debug p pool h,
  )
  after_read-Done p pool (d, inr packet) h fits =
      let b = buffer pool p in
      let pool2 = filled debug sys p packet pool in
      let ((free2, held2, other2), array2, len2, class2, idx2) =
        write_buffer-Written p b.len (overwrite packet b.array) pool h
          (length-overwrite packet b.array) in
      let (pool3, out, ((free3, held3, other3), array3, len3, class3, idx3)) =
        resize-Written debug p (length packet) pool2 held2
          (omega (arith, class2, fits packet refl)) in
      let (_, _, _, _, size) = h in
      (
        pool3,
        ap (after_shrink debug sys d (length packet)) out,
        (free3 ∙ free2, held3, Elsewhere-trans p pool pool2 pool3 other2 other3),
        bytes_held debug p pool3 held3
            ∙ ap some (
                rw (len3, array3, array2)
                  (take-overwrite packet b.array (omega (arith, size, fits packet refl)))),
      )

  ReadDone-trans :
      (p len : ℕ) (array : List ℕ) (pool pool2 : Pool) (r : Device W E × (IoError E ⊎ Str))
      (out : Option (ReadResult debug sys))
      → Written p array len pool pool2
      → ReadDone p pool2 r out
      → ReadDone p pool r out
  ReadDone-trans p len array pool pool2 (d, inl e) out ((free, held, other), _, _, _, idx)
        (pool', eq, (a, b, c)) =
      (pool', eq, (rw (sym free, sym idx) a, b, Elsewhere-trans p pool pool2 pool' other c))
  ReadDone-trans p len array pool pool2 (d, inr packet) out ((free, held, other), _, _, _, _)
        (pool', eq, (a, b, c), e) =
      (pool', eq, (a ∙ free, b, Elsewhere-trans p pool pool2 pool' other c), e)

  read_packet_fits :
      (d : Device W E) (n : ℕ) (packet : Str)
      → (read_packet sys d n).1 ≡ inr packet
      → length packet ≤ n
  read_packet_fits d n packet h =
      let (_, large, _, _, small) = (read_packet_iff sys d n packet).0 h in omega arith

  -- `ReadInto` on a buffer that the caller holds returns, also with the tag `debug`. When `ReadPacket` into
  -- all of the buffer fails, it passes the error on, and has put the buffer into its pool exactly once;
  -- when it gives a packet, the caller still holds the buffer, whose bytes are the packet, and the pools
  -- are as they were. No other buffer changes.
  pub read_into-Done :
      (d : Device W E) (p : ℕ) (pool : Pool)
      → IsHeld pool p
      → ReadDone p pool (read_packet sys d (cap p pool)) (read_into debug sys d p pool)
  unfolding read_into cap
  read_into-Done d p pool h =
      let c = (buffer pool p).class in
      let (pool2, out, ((free2, held2, other2), array2, len2, class2, idx2)) =
        resize-Written debug p c pool h (omega arith) in
      let (_, _, _, _, size) = held2 in
      let all : bytes debug p pool2 ≡ some (buffer pool2 p).array =
        bytes_held debug p pool2 held2
        ∙ ap some
            (take-length (buffer pool2 p).array (buffer pool2 p).len (size ∙ class2 ∙ sym len2)) in
      let done =
        after_read-Done p pool2 (read_packet sys d c) held2
          (λ packet e. omega (arith, class2, read_packet_fits d c packet e)) in
      rw (out, all, size, class2)
        (ReadDone-trans p c (buffer pool p).array pool pool2 (read_packet sys d c) _
          ((free2, held2, other2), array2, len2, class2, idx2) done)

  -- `WriteFrom` of a buffer that the caller holds returns, also with the tag `debug`: it gives what
  -- `WritePacket` of the bytes gives, and has put the buffer into its pool exactly once, whether or not the
  -- write went well. No other buffer changes.
  pub write_from-IsReleased :
      (d : Device W E) (p : ℕ) (pool : Pool)
      → IsHeld pool p
      → (packet : Str) × (pool' : Pool) × (bytes debug p pool ≡ some packet)
        × (write_from debug sys d p pool
            ≡ some ((write_packet sys d packet).0, (pool', (write_packet sys d packet).1)))
        × IsReleased p pool pool'
  unfolding write_from
  write_from-IsReleased d p pool h =
      let held = bytes_held debug p pool h in
      (
        take (buffer pool p).len (buffer pool p).array,
        put p (buffer pool p) pool,
        held,
        rw (held, release-put debug p pool h) refl,
        put-IsReleased debug p pool h,
      )

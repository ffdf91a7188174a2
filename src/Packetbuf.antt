-- ===== src/Packetbuf.antt =====
-- internal/packetbuf/pool.go, with debug_on.go and debug_off.go: pooled buffers. A buffer is a place in a heap
-- and a pointer is its index there, so that two holders of one pointer see the same buffer. `none` is a
-- panic. Which buffer of a `sync.Pool` `Get` takes, if any, is an argument.
pub mod Owned
pub mod Uses
pub mod Sizes
pub mod Tests
use red_mpudp.Prelude.{
  ℕ, zero, suc, ◌+◌, Bool, true, false, ◌&&◌, ◌||◌, List, [], ◌∷◌, ◌++◌, Option, none, some, leb,
  ◌==◌, if◌then◌else◌, length, get_or, set, replicate,
}
use red_mpudp.Prelude.Int.{ℤ, pos, pos_part, ltb_ℤ}

abbrev pub max_handshake_datagram : ℕ
max_handshake_datagram = 768

abbrev pub max_data_datagram : ℕ
max_data_datagram = 1500

abbrev pub max_outer_datagram : ℕ
max_outer_datagram = 1560

abbrev pub size_classes : List ℕ
size_classes = 128 ∷ max_handshake_datagram ∷ max_outer_datagram ∷ []

-- `data` as its array and its length; `pool` as whether it is set.
pub record Buffer : Type 0 where
  pub array : List ℕ
  pub len : ℕ
  pub class : ℕ
  pub pooled : Bool
  pub pool_idx : ℕ
  pub released : Bool

-- A buffer that lies in the pool with this index.
pub record Free : Type 0 where
  pub index : ℕ
  pub pointer : ℕ

pub record Pool : Type 0 where
  pub classes : List ℕ
  pub heap : List Buffer
  pub free : List Free

abbrev pub new_pool_with_classes : List ℕ → Pool
new_pool_with_classes classes = record { classes = classes; heap = []; free = [] }

abbrev pub new_pool : Pool
new_pool = new_pool_with_classes size_classes

abbrev pub no_buffer : Buffer
no_buffer = record { array = []; len = 0; class = 0; pooled = false; pool_idx = 0; released = true }

abbrev pub buffer : Pool → ℕ → Buffer
buffer pool p = get_or pool.heap p no_buffer

-- The first class that is large enough, with its index.
unfoldable pub find_class : ℕ → ℕ → List ℕ → Option (ℕ × ℕ)
find_class n i [] = none
find_class n i (sz ∷ classes) = if leb n sz then some (i, sz) else find_class n (suc i) classes

abbrev kept : Free → Option (ℕ × List Free) → Option (ℕ × List Free)
kept f none = none
kept f (some (p, rest)) = some (p, f ∷ rest)

-- The choice of `sync.Pool`: the entry at this place, if it lies in the pool with this index.
unfoldable pub take_free : ℕ → ℕ → List Free → Option (ℕ × List Free)
take_free i k [] = none
take_free i zero (f ∷ fs) = if f.index == i then some (f.pointer, fs) else none
take_free i (suc k) (f ∷ fs) = kept f (take_free i k fs)

-- What `New` of a `sync.Pool` makes, and what `Get` then sets.
abbrev pub fresh : ℕ → Buffer
fresh sz = record {
  array = replicate sz 0;
  len = sz;
  class = sz;
  pooled = false;
  pool_idx = 0;
  released = false;
}

abbrev pub handed_out : ℕ → ℕ → Buffer → Buffer
handed_out i n b = record b { pooled = true; pool_idx = i; len = n; released = false }

abbrev pub get_from : ℕ → ℕ → ℕ → Option (ℕ × List Free) → Pool → Pool × ℕ
get_from i sz n none pool =
    (record pool { heap = pool.heap ++ handed_out i n (fresh sz) ∷ [] }, length pool.heap)
get_from i sz n (some (p, free)) pool =
    (record pool { heap = set pool.heap p (handed_out i n (buffer pool p)); free = free }, p)

abbrev pub get_class : ℕ → ℕ → Option (ℕ × ℕ) → Pool → Option (Pool × ℕ)
get_class choice n none pool = none
get_class choice n (some (i, sz)) pool = some (get_from i sz n (take_free i choice pool.free) pool)

-- `Get`, which gives a pointer.
unfoldable pub get : ℕ → ℤ → Pool → Option (Pool × ℕ)
get choice n pool =
    if ltb_ℤ n (pos 0)
    then none
    else get_class choice (pos_part n) (find_class (pos_part n) 0 pool.classes) pool

abbrev pub write_buffer : ℕ → Buffer → Pool → Pool
write_buffer p b pool = record pool { heap = set pool.heap p b }

unfoldable pub take : ℕ → List ℕ → List ℕ
take zero xs = []
take (suc n) [] = []
take (suc n) (x ∷ xs) = x ∷ take n xs

unfoldable pub cap : ℕ → Pool → ℕ
cap p pool = (buffer pool p).class

abbrev pub put : ℕ → Buffer → Pool → Pool
put p b pool = record pool {
  heap = set pool.heap p (record b { released = true; len = b.class; pooled = false });
  free = record { index = b.pool_idx; pointer = p } ∷ pool.free;
}

-- The build tag `debug`.
module _ (debug : Bool) where
  -- `checkLive` goes through.
  abbrev pub is_live : Buffer → Bool
  is_live b = if debug then (if b.released then false else true) else true

  unfoldable pub bytes : ℕ → Pool → Option (List ℕ)
  bytes p pool =
      if is_live (buffer pool p)
      then some (take (buffer pool p).len (buffer pool p).array)
      else none

  unfoldable pub resize : ℕ → ℤ → Pool → Option Pool
  resize p n pool =
      if is_live (buffer pool p)
      then (if ltb_ℤ n (pos 0) || ltb_ℤ (pos (buffer pool p).class) n
          then none
          else some (write_buffer p (record (buffer pool p) { len = pos_part n }) pool))
      else none

  -- The pool of a buffer that was never handed out is nil.
  unfoldable pub release : ℕ → Pool → Option Pool
  release p pool =
      if (buffer pool p).released
      then (if debug then none else some pool)
      else if (buffer pool p).pooled
      then some (put p (buffer pool p) pool)
      else none

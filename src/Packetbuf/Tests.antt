-- ===== src/Packetbuf/Tests.antt =====
-- internal/packetbuf at a concrete pool: a buffer is got, released, and got again.
use red_mpudp.Prelude.{refl, true, [], ◌∷◌, set}
use red_mpudp.Prelude.Int.{pos}
use red_mpudp.Packetbuf.{
  Pool, buffer, size_classes, find_class, take_free, handed_out, fresh, get, put, release,
}
use red_mpudp.Packetbuf.Owned.{IsValid}
use red_mpudp.Packetbuf.Uses.{Uses, AreHeld, Uses-AreHeld}

abbrev first_pool : Pool
first_pool = record { classes = size_classes; heap = handed_out 1 200 (fresh 768) ∷ []; free = [] }

abbrev second_pool : Pool
second_pool = record {
  classes = size_classes;
  heap = handed_out 1 200 (fresh 768) ∷ handed_out 1 700 (fresh 768) ∷ [];
  free = [];
}

abbrev third_pool : Pool
third_pool = put 0 (buffer second_pool 0) second_pool

-- The buffer 0 again, for a packet of another length.
abbrev fourth_pool : Pool
fourth_pool = record third_pool {
  heap = set third_pool.heap 0 (handed_out 1 300 (buffer third_pool 0));
  free = [];
}

uses_first : Uses true first_pool (0 ∷ [])
unfolding get find_class take_free
uses_first = Uses.got 0 (pos 200) 0 (Uses.opened size_classes) refl

uses_second : Uses true second_pool (1 ∷ 0 ∷ [])
unfolding get find_class take_free
uses_second = Uses.got 0 (pos 700) 1 uses_first refl

uses_third : Uses true third_pool (1 ∷ [])
unfolding release
uses_third = Uses.freed (1 ∷ []) [] 0 uses_second refl

uses_fourth : Uses true fourth_pool (0 ∷ 1 ∷ [])
unfolding get find_class take_free
uses_fourth = Uses.got 0 (pos 300) 0 uses_third refl

Uses-AreHeld_example : IsValid fourth_pool × AreHeld true fourth_pool (0 ∷ 1 ∷ [])
Uses-AreHeld_example = Uses-AreHeld true uses_fourth

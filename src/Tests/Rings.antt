-- ===== src/Tests/Rings.antt =====
-- The theorems on linked maps at a concrete ring.
use ftb.Prelude.{ℕ, refl, List, [], ◌∷◌, arith, ◌==◌, if◌then◌else◌}
use ftb.Map
use ftb.Dll.{Store, map_insert, map_remove_key}
use ftb.Dll.Maps.{entry_key, Implements, Gives, map_insert-insert, map_remove_key-remove_key}

-- The head is the node 0, and the node 1 has the key 7.
abbrev ring : Store ℕ
ring = record {
  next = λ n. if n == 0 then 1 else 0;
  prev = λ n. if n == 0 then 1 else 0;
  key = λ n. 7;
}

abbrev ring_map : Implements 0 ((1, 7) ∷ []) ring
ring_map = record {
  nodes = 1 ∷ [];
  ring = record { links = ((refl, refl), (refl, refl)); once = ((refl, tt), (tt, tt)) };
  same = refl;
}

map_insert-insert_example :
    Gives ◌==◌ 0 (Map.insert entry_key ◌==◌ (2, 9) ((1, 7) ∷ [])) (map_insert ◌==◌ 2 0 2 9 ring)
map_insert-insert_example =
    map_insert-insert ◌==◌ 2 0 2 ((1, 7) ∷ []) 9 ring ring_map (refl, (refl, tt)) (omega arith)

map_remove_key-remove_key_example :
    Gives ◌==◌ 0 (Map.remove_key entry_key ◌==◌ 7 ((1, 7) ∷ [])) (map_remove_key ◌==◌ 2 0 7 ring)
map_remove_key-remove_key_example =
    map_remove_key-remove_key ◌==◌ 2 0 ((1, 7) ∷ []) 7 ring ring_map (omega arith)

abbrev held : List (ℕ × ℕ)
held = (1, 7) ∷ []

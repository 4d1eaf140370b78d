-- ===== src/Map.antt =====
-- src/util/ftb_util.c, the maps: a map is the list of its nodes in order, from `FTBU_map_begin` to
-- the last. Everywhere in the program the key of a node is memory that its data owns, so a node is
-- its data, and `key` reads the key. A position is the node that stands there, and `none` is
-- `FTBU_map_end`.
pub mod Laws
pub mod Every
pub mod Writes
use ftb.Prelude.{Bool, true, false, List, [], ◌∷◌, ◌++◌, Option, none, some, if◌then◌else◌, is_some}

-- FTBU_SUCCESS, FTBU_EXIST, FTBU_NOT_EXIST
pub data Status : Type 0 where
  done exist not_exist : Status

module _ {ℓ κ} {K : Type ℓ} {N : Type κ} (key : N → K) (is_equal : K → K → Bool) where
  unfoldable pub find_key : K → List N → Option N
  find_key k [] = none
  find_key k (n ∷ ns) = if is_equal (key n) k then some n else find_key k ns

  -- The key is in the map: `FTBU_map_find_key(...) != FTBU_map_end(...)`.
  abbrev pub has : K → List N → Bool
  has k ns = is_some (find_key k ns)

  -- A key that is present leaves the map as it was; a new node goes to the end.
  unfoldable pub insert : N → List N → Status × List N
  insert n ns = if has (key n) ns then (exist, ns) else (done, ns ++ n ∷ [])

  -- `FTBU_map_remove_node` of the node that `FTBU_map_find_key` gives.
  unfoldable pub remove_node : K → List N → List N
  remove_node k [] = []
  remove_node k (n ∷ ns) = if is_equal (key n) k then ns else n ∷ remove_node k ns

  unfoldable pub remove_key : K → List N → Status × List N
  remove_key k ns = if has k ns then (done, remove_node k ns) else (not_exist, ns)

  -- A write through the data of the node that `FTBU_map_find_key` gives.
  unfoldable pub update : K → (N → N) → List N → List N
  update k f [] = []
  update k f (n ∷ ns) = if is_equal (key n) k then f n ∷ ns else n ∷ update k f ns

unfoldable pub is_empty {κ} : {N : Type κ} → List N → Bool
is_empty [] = true
is_empty (n ∷ ns) = false

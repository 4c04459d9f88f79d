-- ===== src/Grt/Map.antt =====
-- Implementation/grt/grt_map.c: a hash table of 100 buckets from words to words.
pub mod Laws
use cluster_stm.Common.{
  ℕ, ◌%◌, Bool, true, false, Option, none, some, List, [], ◌∷◌, ◌==◌, if◌then◌else◌,
}
use cluster_stm.Common.Family.{update}
use cluster_stm.Grt.List.{GrtList, grt_list_create, grt_list_append, grt_list_start}

-- `grt_pair_t`
pub record Pair : Type 0 where
  pub key : ℕ
  pub value : ℕ

-- `grt_map_t`: a null pointer is `none`.
pub record GrtMap : Type 0 where
  pub table : ℕ → Option (GrtList Pair)

abbrev pub table_size : ℕ
table_size = 100

unfoldable pub compute_hash : ℕ → ℕ
compute_hash word = word % table_size

unfoldable pub grt_map_create : GrtMap
grt_map_create = record { table = λ i. none }

-- The loop of `find_pair` over the nodes before the cursor.
unfoldable pub find_in : ℕ → List Pair → Option Pair
find_in key [] = none
find_in key (pair ∷ pairs) = if pair.key == key then some pair else find_in key pairs

unfoldable pub find_pair : ℕ → GrtList Pair → Option Pair
unfolding find_in grt_list_start
find_pair key list = find_in key (grt_list_start list).next

-- `pair->value = value` through the pointer that `find_pair` returned.
unfoldable pub set_value : ℕ → ℕ → List Pair → List Pair
set_value key value [] = []
set_value key value (pair ∷ pairs) =
    if pair.key == key
    then record pair { value = value } ∷ pairs
    else pair ∷ set_value key value pairs

-- The bucket of a key, made if it is not there.
unfoldable pub bucket_of : GrtMap → ℕ → GrtList Pair
unfolding compute_hash grt_list_create
bucket_of m key = elim (m.table (compute_hash key)) [ none ↦ grt_list_create | some list ↦ list ]

-- The map afterwards, and whether the key was there before.
unfoldable pub grt_map_insert : GrtMap → (key value : ℕ) → GrtMap × ℕ
unfolding compute_hash find_pair set_value bucket_of grt_list_append
grt_map_insert m key value =
    let list = bucket_of m key in
    let put = λ (list' : GrtList Pair). record m {
      table = update m.table (compute_hash key) (some list');
    } in
    elim (find_pair key list) [
      | some pair ↦ (put (record list { nodes = set_value key value list.nodes }), 1)
      | none ↦ (put (grt_list_append list (record { key = key; value = value })), 0)
    ]

-- Whether the key is there, and what `*value` holds afterwards if it held `old`.
unfoldable pub grt_map_find : GrtMap → (key old : ℕ) → Bool × ℕ
unfolding compute_hash find_pair
grt_map_find m key old = elim (m.table (compute_hash key)) [
  | none ↦ (false, old)
  | some list ↦ elim (find_pair key list) [ none ↦ (false, old) | some pair ↦ (true, pair.value) ]
]

-- ===== src/Grt/Map/Laws.antt =====
-- `grt_map_t` is a finite map.
use cluster_stm.Common.{
  ℕ, ◌≡◌, ◌∙◌, refl, sym, ap, inl, inr, Bool, true, false, Option, none, some, List, [], ◌∷◌, ◌++◌,
  ◌==◌, if◌then◌else◌, arith, Bool-cases, Option-cases, ==_refl, ==_ne, ==→eq,
}
use cluster_stm.Common.Family.{update}
use cluster_stm.Grt.List.{GrtList, grt_list_create, grt_list_append, grt_list_start}
use cluster_stm.Grt.Map.{
  Pair, GrtMap, compute_hash, grt_map_create, find_in, find_pair, set_value, bucket_of,
  grt_map_insert, grt_map_find,
}

-- What the map holds for a key.
abbrev value_of : Option Pair → Option ℕ
value_of none = none
value_of (some pair) = some pair.value

pub value_in : GrtMap → ℕ → Option ℕ
value_in m key = value_of (find_in key (bucket_of m key).nodes)

find-append :
    (j : ℕ) (pair : Pair) (xs : List Pair)
    → find_in pair.key xs ≡ none
    → value_of (find_in j (xs ++ (pair ∷ [])))
      ≡ (if pair.key == j then some pair.value else value_of (find_in j xs))
unfolding find_in
find-append j pair [] new = ground arith
find-append j pair (x ∷ xs) new = ground (arith, find-append j pair xs)

find-set_value :
    (j key value : ℕ) (xs : List Pair) (old : Pair)
    → find_in key xs ≡ some old
    → value_of (find_in j (set_value key value xs))
      ≡ (if key == j then some value else value_of (find_in j xs))
unfolding find_in set_value
find-set_value j key value [] old here = cc
find-set_value j key value (x ∷ xs) old here = ground (arith, find-set_value j key value xs old)

value_in-create : (key : ℕ) → value_in grt_map_create key ≡ none
unfolding value_in grt_map_create bucket_of grt_list_create find_in
value_in-create key = refl

-- What a search answers that finds `o`.
abbrev answer : ℕ → Option ℕ → Bool × ℕ
answer old none = (false, old)
answer old (some v) = (true, v)

answer-find : (m : GrtMap) (key old : ℕ) → grt_map_find m key old ≡ answer old (value_in m key)
unfolding grt_map_find value_in bucket_of find_pair grt_list_start grt_list_create find_in
answer-find m key old = ground arith

-- The bucket of `j` after a new bucket was put in the place of that of `key`.
bucket_of-update :
    (m : GrtMap) (key j : ℕ) (list : GrtList Pair)
    → bucket_of (record m { table = update m.table (compute_hash key) (some list) }) j
      ≡ (if compute_hash key == compute_hash j then list else bucket_of m j)
unfolding bucket_of
bucket_of-update m key j list = ground arith

bucket_of-cong :
    (m : GrtMap) (i j : ℕ) → compute_hash i ≡ compute_hash j → bucket_of m i ≡ bucket_of m j
unfolding bucket_of
bucket_of-cong m i j h = rw (bucket_of, h)

-- A bucket whose search answers as it should gives a map that does.
value_in-update :
    (m : GrtMap) (key value j : ℕ) (list : GrtList Pair)
    → ((j : ℕ)
        → value_of (find_in j list.nodes)
          ≡ (if key == j then some value else value_of (find_in j (bucket_of m key).nodes)))
    → value_in (record m { table = update m.table (compute_hash key) (some list) }) j
      ≡ (if key == j then some value else value_in m j)
unfolding value_in
value_in-update m key value j list right = elim (Bool-cases (compute_hash key == compute_hash j)) [
  | inl e ↦
      rw (bucket_of-update m key j list, e)
        (rw (sym (bucket_of-cong m key j (==→eq _ _ e))) (right j))
  | inr e ↦
      rw (bucket_of-update m key j list, e)
        (rw (==_ne key j (λ s. cc (sym e, ==_refl (compute_hash j), ap compute_hash s))))
]

insert_new :
    (m : GrtMap) (key value : ℕ)
    → find_in key (bucket_of m key).nodes ≡ none
    → grt_map_insert m key value ≡ (
      record m {
        table =
            update m.table
              (compute_hash key)
              (some (grt_list_append (bucket_of m key) (record { key = key; value = value })));
      },
      0,
    )
unfolding grt_map_insert find_pair grt_list_start
insert_new m key value e = rw (grt_map_insert, e)

insert_old :
    (m : GrtMap) (key value : ℕ) {pair : Pair}
    → find_in key (bucket_of m key).nodes ≡ some pair
    → grt_map_insert m key value ≡ (
      record m {
        table = update m.table (compute_hash key) (
            some
              (record (bucket_of m key) { nodes = set_value key value (bucket_of m key).nodes }));
      },
      1,
    )
unfolding grt_map_insert find_pair grt_list_start
insert_old m key value e = rw (grt_map_insert, e)

value_in-insert :
    (m : GrtMap) (key value j : ℕ)
    → value_in (grt_map_insert m key value).0 j ≡ (if key == j then some value else value_in m j)
unfolding grt_list_append
value_in-insert m key value j = elim (Option-cases (find_in key (bucket_of m key).nodes)) [
  | inl e ↦ rw (insert_new m key value e) (
      value_in-update m key value j _
        (λ i. find-append i (record { key = key; value = value }) (bucket_of m key).nodes e))
  | inr (pair, e) ↦ rw (insert_old m key value e) (
      value_in-update m key value j _
        (λ i. find-set_value i key value (bucket_of m key).nodes pair e))
]

-- After an insertion, a search for the key finds the new value, and a search for any other key
-- answers as before.
pub find-insert :
    (m : GrtMap) (key value j old : ℕ)
    → grt_map_find (grt_map_insert m key value).0 j old
      ≡ (if key == j then (true, value) else grt_map_find m j old)
find-insert m key value j old =
    answer-find (grt_map_insert m key value).0 j old
    ∙ ap (answer old) (value_in-insert m key value j)
    ∙ ground (arith, answer-find m j old)

insert-answer :
    (m : GrtMap) (key value old : ℕ)
    → (grt_map_insert m key value).1 ≡ (if (answer old (value_in m key)).0 then 1 else 0)
unfolding value_in
insert-answer m key value old = elim (Option-cases (find_in key (bucket_of m key).nodes)) [
  | inl e ↦ ground (arith, insert_new m key value e)
  | inr (pair, e) ↦ ground (arith, insert_old m key value e)
]

-- A map that was just created holds no key, and `grt_map_insert` returns 1 exactly when a search
-- finds the key in the map before.
pub insert-was_there :
    (key old : ℕ)
    → (grt_map_find grt_map_create key old ≡ (false, old))
      × ((m : GrtMap) (value : ℕ)
          → (grt_map_insert m key value).1 ≡ (if (grt_map_find m key old).0 then 1 else 0))
insert-was_there key old = (
  answer-find grt_map_create key old ∙ ap (answer old) (value_in-create key),
  λ m value.
      insert-answer m key value old
      ∙ ap (λ (r : Bool × ℕ). if r.0 then 1 else 0) (sym (answer-find m key old)),
)

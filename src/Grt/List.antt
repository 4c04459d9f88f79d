-- ===== src/Grt/List.antt =====
-- Implementation/grt/grt_list.c: lists of words with one cursor.
pub mod Visits
use cluster_stm.Common.{ℕ, zero, suc, ◌+◌, ◌-◌, ◌%◌, ◌^◌, Option, none, some, List, [], ◌∷◌, ◌++◌}

-- `grt_list_t`: `head` and `tail` are the ends of `nodes`, and `next` holds what the cursor has
-- before it. Nothing appends to a list or removes from it in the middle of an iteration.
pub record GrtList {ℓ} (A : Type ℓ) : Type ℓ where
  pub nodes : List A
  pub next : List A
  pub size : ℕ

module _ {ℓ} {A : Type ℓ} where
  unfoldable pub grt_list_create : GrtList A
  grt_list_create = record { nodes = []; next = []; size = 0 }

  unfoldable pub grt_list_append : GrtList A → A → GrtList A
  grt_list_append list x = record list {
    nodes = list.nodes ++ (x ∷ []);
    size = (list.size + 1) % 2 ^ 32;
  }

  -- The list that `grt_list_remove` leaves; `none` where it follows a null pointer.
  unfoldable pub grt_list_remove : GrtList A → Option (GrtList A × A)
  grt_list_remove list = elim list.nodes [
    | [] ↦ none
    | x ∷ xs ↦ some (record list { nodes = xs; size = (list.size + (2 ^ 32 - 1)) % 2 ^ 32 }, x)
  ]

  unfoldable pub grt_list_start : GrtList A → GrtList A
  grt_list_start list = record list { next = list.nodes }

  -- The list with its cursor moved, and the contents of the node that it passed.
  unfoldable pub grt_list_get_next : GrtList A → GrtList A × Option A
  grt_list_get_next list = elim list.next [
    | [] ↦ (list, none)
    | x ∷ xs ↦ (record list { next = xs }, some x)
  ]

  -- The rounds of `grt_list_foreach`: at most `fuel` nodes.
  unfoldable pub visit : ℕ → GrtList A → List A
  unfolding grt_list_get_next
  visit zero list = []
  visit (suc fuel) list =
      let (list', node) = grt_list_get_next list in
      let rest = visit fuel list' in elim node [ none ↦ [] | some x ↦ x ∷ rest ]

-- ===== src/TurnAggregation/Ids.antt =====
-- src/codex_agent_sdk/_turn_aggregation.py: the order of a turn's items.
use codex_python_sdk_unoffic.Common.{
  String, List, [], ◌∷◌, ◌++◌, ◌≡◌, refl, sym, ap, arith, string_eq, mem, IsDistinct, map, not,
  ◌&&◌, ◌||◌, eq_iff, Bool-cases, inl, inr,
}
use codex_python_sdk_unoffic.TurnAggregation.State.{
  ItemAccess, TurnOutputState, TurnItemAggregation,
}
use codex_python_sdk_unoffic.TurnAggregation.Build.{
  unseen, item_ids, resolve_item_ids, aggregate_item, build_item_aggregations, resolve_items_by_id,
}

pub mem-unseen :
    (seen ids : List String) (i : String)
    → mem i (unseen seen ids) ≡ (mem i ids && not (mem i seen))
unfolding unseen mem
mem-unseen seen [] i = refl
mem-unseen seen (j ∷ ids) i =
    ground (arith, eq_iff j i, mem-unseen seen ids i, mem-unseen (j ∷ seen) ids i)

unseen-IsDistinct : (seen ids : List String) → IsDistinct (unseen seen ids)
unfolding unseen mem
unseen-IsDistinct seen [] = tt
unseen-IsDistinct seen (j ∷ ids) = ground (
  arith,
  eq_iff j j,
  unseen-IsDistinct seen ids,
  unseen-IsDistinct (j ∷ seen) ids,
  mem-unseen (j ∷ seen) ids j,
)

-- What is seen matters only by its members.
unseen_only :
    (seen all ys : List String)
    → ((i : String) → mem i seen ≡ mem i all)
    → unseen seen ys ≡ unseen all ys
unfolding unseen mem
unseen_only seen all [] h = refl
unseen_only seen all (j ∷ ys) h = ground (
  arith,
  h j,
  unseen_only seen all ys h,
  unseen_only (j ∷ seen) (j ∷ all) ys (λ i. ground (arith, h i)),
)

-- A loop over two lists is a loop over each, the second with what the first has seen.
unseen-append :
    (seen all xs ys : List String)
    → ((i : String) → mem i all ≡ (mem i xs || mem i seen))
    → unseen seen (xs ++ ys) ≡ unseen seen xs ++ unseen all ys
unfolding unseen mem
unseen-append seen all [] ys h = unseen_only seen all ys (λ i. sym (h i))
unseen-append seen all (j ∷ xs) ys h = elim (Bool-cases (mem j seen)) [
  | inl old ↦ rw old (unseen-append seen all xs ys (λ i. ground (arith, h i, eq_iff j i)))
  | inr new ↦
      rw new (ap (λ l. j ∷ l) (unseen-append (j ∷ seen) all xs ys (λ i. ground (arith, h i))))
]

mem_append : (xs ys : List String) (i : String) → mem i (xs ++ ys) ≡ (mem i xs || mem i ys)
unfolding mem
mem_append [] ys i = refl
mem_append (x ∷ xs) ys i = ground (arith, mem_append xs ys i)

abbrev pub ids_of : {A : Type 0} → List (TurnItemAggregation A) → List String
ids_of {A = A} = map (λ (x : TurnItemAggregation A). x.item_id)

ids_of-map :
    {A U : Type 0} (access : ItemAccess A) (s : TurnOutputState A U) (d : List (String × A))
    (ids : List String)
    → ids_of (map (aggregate_item access s d) ids) ≡ ids
unfolding aggregate_item
ids_of-map access s d [] = refl
ids_of-map access s d (i ∷ ids) = ap (λ l. i ∷ l) (ids_of-map access s d ids)

-- The aggregations stand in a fixed order, one for each item: first the items of the completed turn,
-- then the ids that were only streamed, each list by first appearance. An id has an aggregation
-- exactly if it is in one of the two lists.
pub aggregations_in_order :
    {A U : Type 0} (access : ItemAccess A) (s : TurnOutputState A U) (items : List A)
    → (ids_of (build_item_aggregations access s items)
        ≡ unseen [] (item_ids access items) ++ unseen (item_ids access items) s.item_ids_in_order)
      × IsDistinct (ids_of (build_item_aggregations access s items))
      × ((i : String)
          → mem i (ids_of (build_item_aggregations access s items))
            ≡ (mem i (item_ids access items) || mem i s.item_ids_in_order))
unfolding build_item_aggregations resolve_item_ids mem
aggregations_in_order access s items =
    let own = item_ids access items in
    let ids = ids_of-map access s (resolve_items_by_id access s.items_by_id items) in
    let whole = unseen-append [] own own s.item_ids_in_order (λ i. ground arith) in
    rw (ids (unseen [] (own ++ s.item_ids_in_order))) (
      whole,
      unseen-IsDistinct [] (own ++ s.item_ids_in_order),
      (λ i. ground (
        arith,
        mem-unseen [] (own ++ s.item_ids_in_order) i,
        mem_append own s.item_ids_in_order i,
      )),
    )

-- ===== src/Aggregator/Ids.antt =====
-- adapter/workspace_aggregator.c: the table of requests in flight, by the id that the aggregator
-- gave them.
pub mod Table
use displayxr_mcp.Prelude.{
  ℕ, zero, suc, ◌+◌, ◌%◌, ◌^◌, Bool, true, false, Option, none, some, List, [], ◌∷◌, ◌==◌,
  if◌then◌else◌,
}
use displayxr_mcp.Aggregator.{Kind, Inflight, Aggregator}

module _ {Json : Type 0} where
  -- The first free slot is filled; `none` if there is none.
  unfoldable pub fill :
      List (Option (Inflight Json)) → Inflight Json → Option (List (Option (Inflight Json)))
  fill [] e = none
  fill (none ∷ sl) e = some (some e ∷ sl)
  fill (some f ∷ sl) e = elim (fill sl e) [ none ↦ none | some sl' ↦ some (some f ∷ sl') ]

  -- `++g.next_local_id`
  abbrev pub fresh_id : Aggregator Json → ℕ
  fresh_id g = (g.next_local_id + 1) % 2 ^ 64

  -- `inflight_alloc`: the state with the new entry; `none` where the table is full (and then no id
  -- is used up).
  unfoldable pub alloc : Aggregator Json → ℕ → Kind → Option Json → Option (Aggregator Json)
  unfolding fill
  alloc g backend kind orig_id =
      let e : Inflight Json = record {
        local_id = fresh_id g;
        backend = backend;
        kind = kind;
        orig_id = orig_id;
      } in
      elim (fill g.inflight e) [
        | none ↦ none
        | some sl ↦ some (record g { inflight = sl; next_local_id = fresh_id g })
      ]

  -- `inflight_find`
  unfoldable pub find : List (Option (Inflight Json)) → ℕ → Option (Inflight Json)
  find [] id = none
  find (none ∷ sl) id = find sl id
  find (some e ∷ sl) id = if e.local_id == id then some e else find sl id

  -- `inflight_release` of the slot that `inflight_find` returns.
  pub release : List (Option (Inflight Json)) → ℕ → List (Option (Inflight Json))
  release [] id = []
  release (none ∷ sl) id = none ∷ release sl id
  release (some e ∷ sl) id = if e.local_id == id then none ∷ sl else some e ∷ release sl id

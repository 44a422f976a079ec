-- ===== src/Aggregator/Teardown.antt =====
-- adapter/workspace_aggregator.c: the teardown of a backend with calls in flight.
use mathlib.Core.List.{Memᴰ}
use mathlib.Core.List.Memᴰ
use displayxr_mcp.Prelude.{
  get_elem?, set, sym, ap, inl, inr, Bool-cases, ℕ, ◌<◌, ◌≡◌, ◌≢◌, refl, ◌∙◌, true, Option, none,
  some, List, [], ◌∷◌, length, ◌==◌, if◌then◌else◌, arith, get_elem?-set_self, get_elem?-set_ne,
}
use displayxr_mcp.Json.{Cjson}
use displayxr_mcp.Aggregator.{Kind, agent, tools_refresh, Inflight, Aggregator, Output}
use displayxr_mcp.Aggregator.Ids.{find}
use displayxr_mcp.Aggregator.Ids.Table.{IsValid, AllBelow, Distinct}
use displayxr_mcp.Aggregator.Backends.{backend_at, exit_error, fail_calls, teardown, on_response}

module _ {Json : Type 0} where
  -- The entry, unless it is a call to the backend `idx`.
  abbrev pub unless_of : ℕ → Option (Inflight Json) → Option (Inflight Json)
  unless_of idx none = none
  unless_of idx (some e) = if e.backend == idx then none else some e

module _ (J : Cjson) where
  open J use {Json}

  find-fail_calls :
      (idx j : ℕ) (sl : List (Option (Inflight Json)))
      → Distinct sl
      → find (fail_calls J idx sl).0 j ≡ unless_of idx (find sl j)
  unfolding find fail_calls
  find-fail_calls idx j [] d = refl
  find-fail_calls idx j (none ∷ sl) d = find-fail_calls idx j sl d
  find-fail_calls idx j (some e ∷ sl) d = ground (arith, find-fail_calls idx j sl d.1)

  AllBelow-fail_calls :
      (idx n : ℕ) (sl : List (Option (Inflight Json)))
      → AllBelow n sl
      → AllBelow n (fail_calls J idx sl).0
  unfolding fail_calls
  AllBelow-fail_calls idx n [] b = tt
  AllBelow-fail_calls idx n (none ∷ sl) b = AllBelow-fail_calls idx n sl b
  AllBelow-fail_calls idx n (some e ∷ sl) b = elim (Bool-cases (e.backend == idx)) [
    | inl y ↦ rw y (AllBelow-fail_calls idx n sl b.1)
    | inr y ↦ rw y (b.0, AllBelow-fail_calls idx n sl b.1)
  ]

  Distinct-fail_calls :
      (idx : ℕ) (sl : List (Option (Inflight Json)))
      → Distinct sl
      → Distinct (fail_calls J idx sl).0
  unfolding fail_calls
  Distinct-fail_calls idx [] d = tt
  Distinct-fail_calls idx (none ∷ sl) d = Distinct-fail_calls idx sl d
  Distinct-fail_calls idx (some e ∷ sl) d = elim (Bool-cases (e.backend == idx)) [
    | inl y ↦ rw y (Distinct-fail_calls idx sl d.1)
    | inr y ↦ rw y (
      find-fail_calls idx e.local_id sl d.1 ∙ ap (unless_of idx) d.0,
      Distinct-fail_calls idx sl d.1,
    )
  ]

  Memᴰ-under_kind :
      (k : Kind) {a : Output Json} (m : Output Json) {out : List (Output Json)}
      → Memᴰ a out
      → Memᴰ a (elim k [ agent ↦ m ∷ out | tools_refresh ↦ out ])
  Memᴰ-under_kind agent m r = Memᴰ.tail r
  Memᴰ-under_kind tools_refresh m r = r

  on_response-unknown :
      (g : Aggregator Json) (idx : ℕ) (msg : Json) (j : ℕ)
      → find g.inflight j ≡ none
      → on_response J g idx msg j ≡ (g, [])
  unfolding on_response
  on_response-unknown g idx msg j f = rw (f, on_response)

  Memᴰ-fail_calls :
      (idx j : ℕ) (sl : List (Option (Inflight Json))) (e : Inflight Json)
      → find sl j ≡ some e
      → e.backend ≡ idx
      → e.kind ≡ agent
      → Memᴰ (exit_error J e.orig_id) (fail_calls J idx sl).1
  unfolding find fail_calls
  Memᴰ-fail_calls idx j [] e f b k = cc
  Memᴰ-fail_calls idx j (none ∷ sl) e f b k = Memᴰ-fail_calls idx j sl e f b k
  Memᴰ-fail_calls idx j (some x ∷ sl) e f b k = elim (Bool-cases (x.local_id == j)) [
    | inl here ↦
        let same : x ≡ e = ground (arith, here) in
        let own : (x.backend == idx) ≡ true = ground (arith, same) in
        let call : x.kind ≡ agent = ap (λ i. i.kind) same ∙ k in
        rw (own, call) (Memᴰ.head (ap (λ i. exit_error J i.orig_id) (sym same)))
    | inr other ↦
        let rest = Memᴰ-fail_calls idx j sl e (ground (arith, other)) b k in
        elim (Bool-cases (x.backend == idx)) [
          | inl y ↦ rw y (Memᴰ-under_kind x.kind _ rest)
          | inr y ↦ rw y rest
        ]
  ]

  -- What a teardown promises, of the entry `e` of the id `j` and a late response to it in particular.
  pub record TornDown (g : Aggregator Json) (idx j : ℕ) (e : Inflight Json) (msg : Json)
      : Type 0 where
    pub valid : IsValid (teardown J g idx).0
    pub slots :
        (i : ℕ) → backend_at (teardown J g idx).0 i ≡ (if idx == i then none else backend_at g i)
    pub lookup : (k : ℕ) → find (teardown J g idx).0.inflight k ≡ unless_of idx (find g.inflight k)
    pub answered : Memᴰ (exit_error J e.orig_id) (teardown J g idx).1
    pub late : on_response J (teardown J g idx).0 idx msg j ≡ ((teardown J g idx).0, [])

  teardown-slots :
      (g : Aggregator Json) (idx i : ℕ)
      → idx < length g.backends
      → backend_at (teardown J g idx).0 i ≡ (if idx == i then none else backend_at g i)
  unfolding teardown backend_at
  teardown-slots g idx i l = elim (Bool-cases (idx == i)) [
    | inl y ↦
        let same : idx ≡ i = ground arith in
        let gone : get_elem? (set g.backends idx none) i ≡ some none =
          ap (get_elem? (set g.backends idx none)) (sym same)
          ∙ get_elem?-set_self g.backends idx none l in
        rw (gone, backend_at, y)
    | inr y ↦
        let other : idx ≢ i = ground arith in
        rw (get_elem?-set_ne g.backends idx i none other, backend_at, y)
  ]

  -- When a backend is torn down while a call of the agent is in flight there and the table is
  -- valid, its slot is free and the other slots are as they were; exactly its entries leave the
  -- table, which stays valid; the agent gets an error under the call's own id; and a response to
  -- the call that comes later is dropped.
  pub teardown_lem :
      (g : Aggregator Json) (idx j : ℕ) (e : Inflight Json) (msg : Json)
      → IsValid g
      → idx < length g.backends
      → find g.inflight j ≡ some e
      → e.backend ≡ idx
      → e.kind ≡ agent
      → TornDown g idx j e msg
  unfolding teardown
  teardown_lem g idx j e msg v l f b k =
      let lookup : (i : ℕ)
          → find (fail_calls J idx g.inflight).0 i ≡ unless_of idx (find g.inflight i) =
        λ i. find-fail_calls idx i g.inflight v.distinct in
      let own : (e.backend == idx) ≡ true = ground (arith, b) in
      record {
        valid = record {
          below = AllBelow-fail_calls idx g.next_local_id g.inflight v.below;
          distinct = Distinct-fail_calls idx g.inflight v.distinct;
        };
        slots = λ i. teardown-slots g idx i l;
        lookup = lookup;
        answered = Memᴰ.append_left _ (Memᴰ-fail_calls idx j g.inflight e f b k);
        late = on_response-unknown _ idx msg j (lookup j ∙ rw (f, own));
      }

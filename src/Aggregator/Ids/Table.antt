-- ===== src/Aggregator/Ids/Table.antt =====
-- The table of requests in flight as a finite map from local ids: no id is given out twice while it
-- is in flight, and each operation is the map's.
use displayxr_mcp.Prelude.{
  ℕ, zero, suc, ◌+◌, ◌^◌, ◌≤◌, ◌<◌, ◌≡◌, refl, subst, Bool, Option, none, some, List, [], ◌∷◌, ◌==◌,
  if◌then◌else◌, arith, Option-cases, inl, inr, replicate,
}
use displayxr_mcp.Aggregator.{Kind, Inflight, Aggregator, max_inflight, initial}
use displayxr_mcp.Aggregator.Ids.{fill, fresh_id, alloc, find, release}

module _ {Json : Type 0} where
  abbrev pub AllBelow : ℕ → List (Option (Inflight Json)) → Type 0
  AllBelow n [] = Unit {0}
  AllBelow n (none ∷ sl) = AllBelow n sl
  AllBelow n (some e ∷ sl) = (e.local_id ≤ n) × AllBelow n sl

  abbrev pub Distinct : List (Option (Inflight Json)) → Type 0
  Distinct [] = Unit {0}
  Distinct (none ∷ sl) = Distinct sl
  Distinct (some e ∷ sl) = (find sl e.local_id ≡ none) × Distinct sl

  AllBelow-mono :
      (m n : ℕ) (sl : List (Option (Inflight Json))) → m ≤ n → AllBelow m sl → AllBelow n sl
  AllBelow-mono m n [] h b = tt
  AllBelow-mono m n (none ∷ sl) h b = AllBelow-mono m n sl h b
  AllBelow-mono m n (some e ∷ sl) h b = (omega arith, AllBelow-mono m n sl h b.1)

  find_above :
      (n j : ℕ) (sl : List (Option (Inflight Json))) → AllBelow n sl → n < j → find sl j ≡ none
  unfolding find
  find_above n j [] b h = refl
  find_above n j (none ∷ sl) b h = find_above n j sl b h
  find_above n j (some e ∷ sl) b h = ground (arith, find_above n j sl b.1)

  find-fill :
      (sl : List (Option (Inflight Json))) (e : Inflight Json) (j : ℕ)
      {sl' : List (Option (Inflight Json))}
      → fill sl e ≡ some sl'
      → find sl e.local_id ≡ none
      → find sl' j ≡ (if e.local_id == j then some e else find sl j)
  unfolding find fill
  find-fill [] e j h f = cc
  find-fill (none ∷ sl) e j h f = ground arith
  find-fill (some x ∷ sl) e j h f = elim (Option-cases (fill sl e)) [
    | inl full ↦ ground (arith, full)
    | inr (rest, p) ↦ ground (arith, p, find-fill sl e j {sl' = rest} p)
  ]

  AllBelow-fill :
      (n : ℕ) (sl : List (Option (Inflight Json))) (e : Inflight Json)
      (sl' : List (Option (Inflight Json)))
      → fill sl e ≡ some sl'
      → AllBelow n sl
      → e.local_id ≤ n
      → AllBelow n sl'
  unfolding fill
  AllBelow-fill n [] e sl' h b l = cc
  AllBelow-fill n (none ∷ sl) e sl' h b l =
      let same : some e ∷ sl ≡ sl' = ground arith in subst (AllBelow n) same (l, b)
  AllBelow-fill n (some x ∷ sl) e sl' h b l = elim (Option-cases (fill sl e)) [
    | inl full ↦ absurd (ground (arith, full))
    | inr (rest, p) ↦
        let same : some x ∷ rest ≡ sl' = ground (arith, p) in
        subst (AllBelow n) same (b.0, AllBelow-fill n sl e rest p b.1 l)
  ]

  Distinct-fill :
      (sl : List (Option (Inflight Json))) (e : Inflight Json) (sl' : List (Option (Inflight Json)))
      → fill sl e ≡ some sl'
      → find sl e.local_id ≡ none
      → Distinct sl
      → Distinct sl'
  unfolding fill find
  Distinct-fill [] e sl' h f d = cc
  Distinct-fill (none ∷ sl) e sl' h f d =
      let same : some e ∷ sl ≡ sl' = ground arith in subst Distinct same (f, d)
  Distinct-fill (some x ∷ sl) e sl' h f d = elim (Option-cases (fill sl e)) [
    | inl full ↦ absurd (ground (arith, full))
    | inr (rest, p) ↦
        let same : some x ∷ rest ≡ sl' = ground (arith, p) in
        let apart : find sl e.local_id ≡ none = ground arith in
        let kept : find rest x.local_id ≡ none =
          ground (arith, find-fill sl e x.local_id {sl' = rest} p apart) in
        subst Distinct same (kept, Distinct-fill sl e rest p apart d.1)
  ]

  -- Taking an id out of the table leaves the other ids as they were.
  pub find-release :
      (sl : List (Option (Inflight Json))) (id j : ℕ)
      → Distinct sl
      → find (release sl id) j ≡ (if id == j then none else find sl j)
  unfolding find release
  find-release [] id j d = ground arith
  find-release (none ∷ sl) id j d = find-release sl id j d
  find-release (some x ∷ sl) id j d = ground (arith, find-release sl id j d.1)

  AllBelow-release :
      (n : ℕ) (sl : List (Option (Inflight Json))) (id : ℕ)
      → AllBelow n sl
      → AllBelow n (release sl id)
  unfolding release
  AllBelow-release n [] id b = tt
  AllBelow-release n (none ∷ sl) id b = AllBelow-release n sl id b
  AllBelow-release n (some x ∷ sl) id b = ground (arith, AllBelow-release n sl id b.1)

  Distinct-release :
      (sl : List (Option (Inflight Json))) (id : ℕ) → Distinct sl → Distinct (release sl id)
  unfolding release
  Distinct-release [] id d = tt
  Distinct-release (none ∷ sl) id d = Distinct-release sl id d
  Distinct-release (some x ∷ sl) id d =
      ground (arith, Distinct-release sl id d.1, find-release sl id x.local_id d.1)

AllBelow-none : (Json : Type 0) (n k : ℕ) → AllBelow {Json = Json} n (replicate k none)
AllBelow-none Json n zero = tt
AllBelow-none Json n (suc k) = AllBelow-none Json n k

Distinct-none : (Json : Type 0) (k : ℕ) → Distinct {Json = Json} (replicate k none)
Distinct-none Json zero = tt
Distinct-none Json (suc k) = Distinct-none Json k

module _ {Json : Type 0} where
  -- The ids in flight are different, and none is above the counter.
  pub record IsValid (g : Aggregator Json) : Type 0 where
    pub below : AllBelow g.next_local_id g.inflight
    pub distinct : Distinct g.inflight

  pub initial-IsValid : (expose : Bool) → IsValid (initial expose)
  initial-IsValid expose = record {
    below = AllBelow-none Json 0 max_inflight;
    distinct = Distinct-none Json max_inflight;
  }

  -- What a new entry promises: its id was free, the table stays valid, and an id is looked up to
  -- the new entry or to what it had.
  pub record Added (g : Aggregator Json) (backend : ℕ) (kind : Kind) (orig : Option Json)
      (g' : Aggregator Json) : Type 0 where
    pub valid : IsValid g'
    pub unused : find g.inflight g'.next_local_id ≡ none
    pub lookup :
        (j : ℕ)
        → find g'.inflight j ≡ (
            if g'.next_local_id == j
            then some (record {
              local_id = g'.next_local_id;
              backend = backend;
              kind = kind;
              orig_id = orig;
            })
            else find g.inflight j)

  fresh_id_lem :
      (g : Aggregator Json) → g.next_local_id + 1 < 2 ^ 64 → fresh_id g ≡ g.next_local_id + 1
  fresh_id_lem g b = omega arith

  added :
      (g : Aggregator Json) (backend : ℕ) (kind : Kind) (orig : Option Json)
      (sl : List (Option (Inflight Json)))
      → IsValid g
      → g.next_local_id < fresh_id g
      → fill g.inflight
          (record { local_id = fresh_id g; backend = backend; kind = kind; orig_id = orig })
        ≡ some sl
      → Added g backend kind orig (record g { inflight = sl; next_local_id = fresh_id g })
  added g backend kind orig sl v b p =
      let e : Inflight Json = record {
        local_id = fresh_id g;
        backend = backend;
        kind = kind;
        orig_id = orig;
      } in
      let free : find g.inflight (fresh_id g) ≡ none =
        find_above g.next_local_id (fresh_id g) g.inflight v.below b in
      record {
        valid = record {
          below =
              AllBelow-fill (fresh_id g) g.inflight e sl p
                (AllBelow-mono g.next_local_id (fresh_id g) g.inflight (omega arith) v.below)
                (omega arith);
          distinct = Distinct-fill g.inflight e sl p free v.distinct;
        };
        unused = free;
        lookup = λ j. find-fill g.inflight e j {sl' = sl} p free;
      }

  -- A new entry in a valid table gets an id that no entry in flight has, and leaves every other
  -- id's entry as it was; the table stays valid. The counter of ids is below its last value.
  pub alloc_lem :
      (g : Aggregator Json) (backend : ℕ) (kind : Kind) (orig : Option Json) (g' : Aggregator Json)
      → IsValid g
      → g.next_local_id + 1 < 2 ^ 64
      → alloc g backend kind orig ≡ some g'
      → Added g backend kind orig g'
  unfolding alloc
  alloc_lem g backend kind orig g' v b h =
      let e : Inflight Json = record {
        local_id = fresh_id g;
        backend = backend;
        kind = kind;
        orig_id = orig;
      } in
      let up : g.next_local_id < fresh_id g = omega (arith, fresh_id_lem g b) in
      elim (Option-cases (fill g.inflight e)) [
        | inl full ↦ absurd (ground (arith, full))
        | inr (sl, p) ↦
            let same : record g { inflight = sl; next_local_id = fresh_id g } ≡ g' =
              ground (arith, p) in
            subst (Added g backend kind orig) same (added g backend kind orig sl v up p)
      ]

  pub release-IsValid :
      (g : Aggregator Json) (id : ℕ)
      → IsValid g
      → IsValid (record g { inflight = release g.inflight id })
  release-IsValid g id v = record {
    below = AllBelow-release g.next_local_id g.inflight id v.below;
    distinct = Distinct-release g.inflight id v.distinct;
  }

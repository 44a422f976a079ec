-- ===== src/Aggregator/Membership/Poll.antt =====
-- adapter/workspace_aggregator.c: one round of the membership poll.
use displayxr_mcp.Prelude.{
  ℕ, ◌≤◌, ◌<◌, ◌≡◌, ◌≢◌, subst, sym, ◌∙◌, Bool, true, false, not, ◌&&◌, inl, inr, List, [], ◌∷◌,
  ◌++◌, length, length-append, ltb, ◌==◌, if◌then◌else◌, arith, Bool-cases,
}
use displayxr_mcp.Aggregator.{Aggregator, max_backends}
use displayxr_mcp.Aggregator.Membership.{contains, backend_known, poll_pids}

contains-append :
    (xs : List ℕ) (p q : ℕ) → contains (xs ++ (p ∷ [])) q ≡ (if contains xs q then true else p == q)
unfolding contains
contains-append [] p q = ground arith
contains-append (x ∷ xs) p q = ground (arith, contains-append xs p q)

-- No pid twice.
abbrev pub NoDup : List ℕ → Type 0
NoDup [] = Unit {0}
NoDup (p ∷ ps) = (contains ps p ≡ false) × NoDup ps

module _ {Json : Type 0} where
  -- The state with `p` among the pids being connected to.
  abbrev with_pid : Aggregator Json → ℕ → Aggregator Json
  with_pid g p = record g { connecting = g.connecting ++ (p ∷ []) }

  backend_known-with_pid :
      (g : Aggregator Json) (p q : ℕ)
      → backend_known (with_pid g p) false q ≡ (if backend_known g false q then true else p == q)
  unfolding backend_known
  backend_known-with_pid g p q = ground (arith, contains-append g.connecting p q)

  -- The guard of the loop of `poll_thread`.
  abbrev wanted : ℕ → Aggregator Json → ℕ → Bool
  wanted self g p =
      not (p == self) && (not (backend_known g false p) && ltb (length g.connecting) max_backends)

  poll_pids-skip :
      (self : ℕ) (g : Aggregator Json) (p : ℕ) (ps : List ℕ)
      → wanted self g p ≡ false
      → poll_pids self g (p ∷ ps) ≡ poll_pids self g ps
  unfolding poll_pids
  poll_pids-skip self g p ps h = rw (h, poll_pids)

  poll_pids-take :
      (self : ℕ) (g : Aggregator Json) (p : ℕ) (ps : List ℕ)
      → wanted self g p ≡ true
      → poll_pids self g (p ∷ ps)
        ≡ ((poll_pids self (with_pid g p) ps).0, p ∷ (poll_pids self (with_pid g p) ps).1)
  unfolding poll_pids
  poll_pids-take self g p ps h = rw (h, poll_pids)

  -- What a round promises of the state and the fresh pids that it ends with.
  pub record Polled (self : ℕ) (g : Aggregator Json) (ps : List ℕ) (r : Aggregator Json × List ℕ)
      : Type 0 where
    pub known_iff :
        (q : ℕ)
        → backend_known r.0 false q ≡ (if backend_known g false q then true else contains r.1 q)
    pub fresh :
        (q : ℕ)
        → contains r.1 q ≡ true
        → (q ≢ self) × (backend_known g false q ≡ false) × (contains ps q ≡ true)
    pub once : NoDup r.1
    pub grows : length g.connecting ≤ length r.0.connecting
    pub fits : length g.connecting ≤ max_backends → length r.0.connecting ≤ max_backends
    pub complete :
        (q : ℕ)
        → contains ps q ≡ true
        → q ≢ self
        → length r.0.connecting < max_backends
        → backend_known r.0 false q ≡ true

  skipped :
      (self : ℕ) (g : Aggregator Json) (p : ℕ) (ps : List ℕ) (r : Aggregator Json × List ℕ)
      → wanted self g p ≡ false
      → Polled self g ps r
      → Polled self g (p ∷ ps) r
  unfolding contains
  skipped self g p ps r h v = record {
    known_iff = v.known_iff;
    fresh = λ q c. ((v.fresh q c).0, (v.fresh q c).1, ground (arith, v.fresh q c));
    once = v.once;
    grows = v.grows;
    fits = v.fits;
    complete = λ q c n l. ground (arith, v.complete q, v.known_iff q, v.grows);
  }

  taken :
      (self : ℕ) (g : Aggregator Json) (p : ℕ) (ps : List ℕ) (r : Aggregator Json × List ℕ)
      → wanted self g p ≡ true
      → Polled self (with_pid g p) ps r
      → Polled self g (p ∷ ps) (r.0, p ∷ r.1)
  unfolding contains
  taken self g p ps r h v =
      let longer = length-append g.connecting (p ∷ []) in
      let itself : (p == p) ≡ true = ground arith in
      record {
        known_iff = λ q. v.known_iff q ∙ ground (arith, backend_known-with_pid g p q);
        fresh = λ q c. ground (arith, v.fresh q, backend_known-with_pid g p q);
        once = (ground (arith, itself, v.fresh p, backend_known-with_pid g p p), v.once);
        grows = omega (arith, v.grows, longer);
        fits = λ l. v.fits (ground (arith, longer));
        complete =
            λ q c n l. ground (arith, v.complete q, v.known_iff q, backend_known-with_pid g p q);
      }

  -- One round of the poll: the pids it hands to connecting threads are not the poller's own, were
  -- enumerated, were not known before, and come once each; exactly they become known; the list of
  -- connecting pids stays within its array; and unless that list is full at the end, every
  -- enumerated pid other than the poller's own is known then.
  pub poll_pids_lem :
      (self : ℕ) (g : Aggregator Json) (ps : List ℕ) → Polled self g ps (poll_pids self g ps)
  unfolding poll_pids contains
  poll_pids_lem self g [] = record {
    known_iff = λ q. ground arith;
    fresh = λ q c. absurd (ground arith);
    once = tt;
    grows = omega arith;
    fits = λ l. l;
    complete = λ q c n l. absurd (ground arith);
  }
  poll_pids_lem self g (p ∷ ps) = elim (Bool-cases (wanted self g p)) [
    | inl w ↦ subst (Polled self g (p ∷ ps)) (sym (poll_pids-take self g p ps w)) (
        taken self g p ps (poll_pids self (with_pid g p) ps) w
          (poll_pids_lem self (with_pid g p) ps))
    | inr n ↦
        subst (Polled self g (p ∷ ps)) (sym (poll_pids-skip self g p ps n))
          (skipped self g p ps (poll_pids self g ps) n (poll_pids_lem self g ps))
  ]

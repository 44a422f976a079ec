-- ===== src/Aggregator/Membership/Forget.antt =====
-- adapter/workspace_aggregator.c: what is known of an endpoint when its setup has ended.
use displayxr_mcp.Prelude.{ℕ, ◌≡◌, true, false, List, [], ◌∷◌, ◌==◌, if◌then◌else◌, arith}
use displayxr_mcp.Aggregator.{Aggregator}
use displayxr_mcp.Aggregator.Membership.{
  contains, last_or, drop_last, swap_remove, connecting_remove, is_member, backend_known,
}
use displayxr_mcp.Aggregator.Membership.Poll.{NoDup}

contains-drop_last :
    (y : ℕ) (ys : List ℕ) (q : ℕ)
    → contains (y ∷ ys) q ≡ (if contains (drop_last (y ∷ ys)) q then true else last_or y ys == q)
unfolding contains drop_last last_or
contains-drop_last y [] q = ground arith
contains-drop_last y (z ∷ zs) q = ground (arith, contains-drop_last z zs q)

contains-swap_remove :
    (xs : List ℕ) (pid q : ℕ)
    → NoDup xs
    → contains (swap_remove xs pid) q ≡ (if pid == q then false else contains xs q)
unfolding contains swap_remove
contains-swap_remove [] pid q n = ground arith
contains-swap_remove (x ∷ []) pid q n = ground arith
contains-swap_remove (x ∷ y ∷ ys) pid q n =
    ground (arith, n.0, n.1, contains-drop_last y ys q, contains-swap_remove (y ∷ ys) pid q n.1)

-- Once the setup for a pid has ended, that pid is known only if a backend has it, so the next poll
-- can try it again; what is known of every other pid is as before. It holds while the list of
-- connecting pids has no pid twice.
pub backend_known-connecting_remove :
    {Json : Type 0} (g : Aggregator Json) (pid q : ℕ)
    → NoDup g.connecting
    → backend_known (connecting_remove g false pid) false q
      ≡ (if pid == q then is_member g.backends false q else backend_known g false q)
unfolding backend_known connecting_remove
backend_known-connecting_remove g pid q n =
    ground (arith, contains-swap_remove g.connecting pid q n)

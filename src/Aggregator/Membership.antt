-- ===== src/Aggregator/Membership.antt =====
-- adapter/workspace_aggregator.c: which endpoints the membership poll sets up.
pub mod Poll
pub mod Forget
use displayxr_mcp.Prelude.{
  ℕ, zero, suc, ◌+◌, Bool, true, false, not, ◌&&◌, ◌||◌, Option, none, some, List, [], ◌∷◌, ◌++◌,
  length, ltb, ◌==◌, if◌then◌else◌,
}
use displayxr_mcp.Aggregator.{Backend, Aggregator, max_backends}

unfoldable pub contains : List ℕ → ℕ → Bool
contains [] x = false
contains (y ∷ ys) x = if y == x then true else contains ys x

-- The array with its first `pid` overwritten by its last element and one element shorter.
pub last_or : ℕ → List ℕ → ℕ
last_or x [] = x
last_or x (y ∷ ys) = last_or y ys

pub drop_last : List ℕ → List ℕ
drop_last [] = []
drop_last (x ∷ []) = []
drop_last (x ∷ y ∷ ys) = x ∷ drop_last (y ∷ ys)

pub swap_remove : List ℕ → ℕ → List ℕ
unfolding last_or drop_last
swap_remove [] pid = []
swap_remove (x ∷ []) pid = if x == pid then [] else x ∷ []
swap_remove (x ∷ y ∷ ys) pid =
    if x == pid then last_or y ys ∷ drop_last (y ∷ ys) else x ∷ swap_remove (y ∷ ys) pid

module _ {Json : Type 0} where
  -- `connecting_remove`
  unfoldable pub connecting_remove : Aggregator Json → Bool → ℕ → Aggregator Json
  unfolding swap_remove
  connecting_remove g is_shell pid =
      if is_shell
      then record g { shell_connecting = false }
      else record g { connecting = swap_remove g.connecting pid }

  -- The loop over the backends in `backend_known`.
  pub is_member : List (Option (Backend Json)) → Bool → ℕ → Bool
  is_member [] is_shell pid = false
  is_member (none ∷ bs) is_shell pid = is_member bs is_shell pid
  is_member (some b ∷ bs) is_shell pid =
      if (if is_shell then b.is_shell else not b.is_shell && b.pid == pid)
      then true
      else is_member bs is_shell pid

  -- `backend_known`
  pub backend_known : Aggregator Json → Bool → ℕ → Bool
  unfolding is_member contains
  backend_known g is_shell pid =
      if is_member g.backends is_shell pid
      then true
      else (if is_shell then g.shell_connecting else contains g.connecting pid)

  -- The loop of `poll_thread` over the enumerated pids: the state, and the fresh pids.
  pub poll_pids : ℕ → Aggregator Json → List ℕ → Aggregator Json × List ℕ
  unfolding backend_known
  poll_pids self g [] = (g, [])
  poll_pids self g (p ∷ ps) =
      elim (not (p == self)
        && (not (backend_known g false p) && ltb (length g.connecting) max_backends)) [
          | false ↦ poll_pids self g ps
          | true ↦
              let (g', fresh) =
                poll_pids self (record g { connecting = g.connecting ++ (p ∷ []) }) ps in
              (g', p ∷ fresh)
        ]

  -- One locked round of `poll_thread`: the fresh pids, and whether to try the shell.
  pub poll : ℕ → Aggregator Json → List ℕ → Aggregator Json × List ℕ × Bool
  unfolding poll_pids
  poll self g pids =
      let (g', fresh) = poll_pids self g pids in
      let try_shell = not (backend_known g' true 0) in
      ((if try_shell then record g' { shell_connecting = true } else g'), fresh, try_shell)

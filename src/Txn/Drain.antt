-- ===== src/Txn/Drain.antt =====
-- A life cycle that runs on a context ends, and leaves the context idle with every transaction that
-- was queued on it answered in order.
use smf_cdac.Base.{ℕ, zero, suc, ◌+◌, ◌<◌, ◌≡◌, sym, none, List, [], ◌∷◌, ◌++◌, arith}
use mathlib.Core.List.{append_assoc, append-nil}
use smf_cdac.Fsm.Handlers.{Producer}
use smf_cdac.Txn.Types.{run, ctxt, Txn, Smf}
use smf_cdac.Txn.Handlers.{dispatch}
use smf_cdac.Txn.LifeCycle.{
  Turn, goes, over, panicked, Ending, finished, crashed, running, life_cycle, turn_of,
}
use smf_cdac.Txn.Bus.{bus_of, bus_cost, cost, ids, answered, expected, AllHere, TurnSpec}
use smf_cdac.Txn.Rounds.{NeverPanics, round}

-- The life cycle is over, the context is idle, and the answers begin with `xs`.
abbrev pub EndSpec : ℕ → List ℕ → Ending → Type 0
EndSpec r xs (finished m t) =
    ((m.contexts r).active_txn ≡ none)
    × (bus_of m r ≡ [])
    × ((ys : List ℕ) × (answered m.replies ≡ xs ++ ys))
EndSpec r xs crashed = ⊥
EndSpec r xs running = ⊥

EndSpec-prefix :
    (r : ℕ) (xs ys zs : List ℕ) (e : Ending) → zs ≡ xs ++ ys → EndSpec r zs e → EndSpec r xs e
EndSpec-prefix r xs ys zs (finished m t) e (idle, empty, (us, eq)) =
    (idle, empty, (ys ++ us, rw (eq, e) (append_assoc xs ys us)))
EndSpec-prefix r xs ys zs crashed e h = h
EndSpec-prefix r xs ys zs running e h = h

drain :
    (r : ℕ) (p : ℕ → Producer) (fuel k : ℕ) (xs : List ℕ) (turn : Turn)
    → NeverPanics p
    → TurnSpec r k xs turn
    → k < fuel
    → EndSpec r xs (life_cycle fuel p turn)
unfolding life_cycle
drain r p zero k xs turn n s h = absurd (omega arith)
drain r p (suc fuel) k xs (goes m t e) n (inv, less, (ys, eq)) h =
    EndSpec-prefix r xs ys (expected r m t e) _ eq (
      drain r p fuel (cost e t.msg_type + bus_cost (bus_of m r)) (expected r m t e)
        (turn_of e (dispatch p e m t)) n (round r p m t e n inv) (omega arith))
drain r p (suc fuel) k xs (over m t) n s h = s
drain r p (suc fuel) k xs panicked n s h = s

-- A transaction that starts to run on a context ends its life cycle within the rounds that its cost
-- and the cost of the context's bus allow: the context is left idle with an empty bus, and the answers
-- given are those before, then its own and those of the queued transactions in the order of the bus,
-- then any others. The state machine's producers must not panic, and the bus must hold transactions of
-- that context only.
pub life_cycle-EndSpec :
    (r : ℕ) (p : ℕ → Producer) (m : Smf) (t : Txn) (fuel : ℕ)
    → NeverPanics p
    → t.context ≡ ctxt r
    → AllHere r (bus_of m r)
    → suc (cost run t.msg_type + bus_cost (bus_of m r)) < fuel
    → EndSpec r
        (answered m.replies ++ t.txn_id ∷ ids (bus_of m r))
        (life_cycle fuel p (goes m t run))
life_cycle-EndSpec r p m t fuel n here all h =
    drain r p fuel (suc (cost run t.msg_type + bus_cost (bus_of m r))) _ (goes m t run) n
      (record { here = here; bus_here = all; phase = tt }, omega arith, ([], sym (append-nil _))) h

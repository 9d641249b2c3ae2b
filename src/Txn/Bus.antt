-- ===== src/Txn/Bus.antt =====
-- What a life cycle keeps while it runs on one context: the cost of what is left to do, and the
-- answers that are due.
use smf_cdac.Base.{
  ℕ, ◌+◌, ◌<◌, ◌≡◌, refl, sym, ap, Bool, true, none, List, [], ◌∷◌, ◌++◌, All, All-append, arith,
  ◌==◌,
}
use mathlib.Core.List.{append-nil, append_assoc}
use smf_cdac.Txn.Types.{
  MsgType, pfcp_sess_create, TxnEvent, run, process, success, failure, save, end, ctxt, Txn, TxnBus,
  Smf,
}
use smf_cdac.Txn.Handlers.{put}
use smf_cdac.Txn.LifeCycle.{Turn, goes, over, panicked}

abbrev pub bus_of : Smf → ℕ → TxnBus
bus_of m r = (m.contexts r).txn_bus

-- The rounds that a transaction may still take and cause: those of its own, and those of the
-- transaction that it may put on the bus.
abbrev pub spawn_cost : MsgType → ℕ
spawn_cost pfcp_sess_create = 5
spawn_cost _ = 0

abbrev pub bus_cost : TxnBus → ℕ
bus_cost [] = 0
bus_cost (t ∷ bus) = 5 + spawn_cost t.msg_type + bus_cost bus

abbrev pub cost : TxnEvent → MsgType → ℕ
cost run k = 5 + spawn_cost k
cost process k = 4 + spawn_cost k
cost success k = 3 + spawn_cost k
cost failure k = 2 + spawn_cost k
cost save k = 2
cost _ k = 1

abbrev pub ids : TxnBus → List ℕ
ids [] = []
ids (t ∷ bus) = t.txn_id ∷ ids bus

abbrev pub answered : List (ℕ × Bool) → List ℕ
answered [] = []
answered (a ∷ more) = a.0 ∷ answered more

-- The transaction's own answer, where it is still to come.
abbrev pub own : TxnEvent → ℕ → List ℕ
own save id = []
own end id = []
own _ id = id ∷ []

-- The answers given, and those to come in order, as far as is known.
abbrev pub expected : ℕ → Smf → Txn → TxnEvent → List ℕ
expected r m t e = answered m.replies ++ (own e t.txn_id ++ ids (bus_of m r))

abbrev pub IsPhase : TxnEvent → Type 0
IsPhase run = Unit
IsPhase process = Unit
IsPhase success = Unit
IsPhase failure = Unit
IsPhase save = Unit
IsPhase end = Unit
IsPhase _ = ⊥

abbrev pub AllHere : ℕ → TxnBus → Type 0
AllHere r = All (λ (u : Txn). u.context ≡ ctxt r)

pub record Inv (r : ℕ) (m : Smf) (t : Txn) (e : TxnEvent) : Type 0 where
  pub here : t.context ≡ ctxt r
  pub bus_here : AllHere r (bus_of m r)
  pub phase : IsPhase e

bus_cost-append : (a b : TxnBus) → bus_cost (a ++ b) ≡ bus_cost a + bus_cost b
bus_cost-append [] b = omega arith
bus_cost-append (t ∷ a) b = omega (arith, bus_cost-append a b)

ids-append : (a b : TxnBus) → ids (a ++ b) ≡ ids a ++ ids b
ids-append [] b = refl
ids-append (t ∷ a) b = ap (◌∷◌ t.txn_id) (ids-append a b)

answered-append : (a b : List (ℕ × Bool)) → answered (a ++ b) ≡ answered a ++ answered b
answered-append [] b = refl
answered-append (x ∷ a) b = ap (◌∷◌ x.0) (answered-append a b)

-- What a round may lead to: on, at a lower cost, or to the end with an idle context; no answer that is
-- due is lost or overtaken.
abbrev pub TurnSpec : ℕ → ℕ → List ℕ → Turn → Type 0
TurnSpec r k xs (goes m t e) =
    Inv r m t e
    × (cost e t.msg_type + bus_cost (bus_of m r) < k)
    × ((ys : List ℕ) × (expected r m t e ≡ xs ++ ys))
TurnSpec r k xs (over m t) =
    ((m.contexts r).active_txn ≡ none)
    × (bus_of m r ≡ [])
    × ((ys : List ℕ) × (answered m.replies ≡ xs ++ ys))
TurnSpec r k xs panicked = ⊥

pub put_self {ℓ} : {A : Type ℓ} (f : ℕ → A) (k : ℕ) (v : A) → put f k v k ≡ v
put_self f k v = let e : (k == k) ≡ true = ground arith in rw e

-- A round that answers nothing and leaves the bus of the context alone.
pub quiet :
    (r : ℕ) (m m' : Smf) (t : Txn) (e e' : TxnEvent)
    → Inv r m t e
    → IsPhase e'
    → bus_of m' r ≡ bus_of m r
    → m'.replies ≡ m.replies
    → own e' t.txn_id ≡ own e t.txn_id
    → cost e' t.msg_type < cost e t.msg_type
    → TurnSpec r (cost e t.msg_type + bus_cost (bus_of m r)) (expected r m t e) (goes m' t e')
quiet r m m' t e e' v ph b a o c = (
  record { here = v.here; bus_here = rw b v.bus_here; phase = ph },
  rw b (omega arith),
  ([], rw (b, a, o) (sym (append-nil (expected r m t e)))),
)

-- The answer of a transaction is the next of those that are due.
pub answer :
    (r : ℕ) (m m' : Smf) (t : Txn) (e e' : TxnEvent) (b : Bool) (new : TxnBus)
    → Inv r m t e
    → IsPhase e'
    → bus_of m' r ≡ bus_of m r ++ new
    → AllHere r new
    → m'.replies ≡ m.replies ++ ((t.txn_id, b) ∷ [])
    → own e t.txn_id ≡ t.txn_id ∷ []
    → own e' t.txn_id ≡ []
    → cost e' t.msg_type + bus_cost new < cost e t.msg_type
    → TurnSpec r (cost e t.msg_type + bus_cost (bus_of m r)) (expected r m t e) (goes m' t e')
answer r m m' t e e' b new v ph bus all a o o' c = (
  record { here = v.here; bus_here = rw bus (All-append _ _ new v.bus_here all); phase = ph },
  rw bus (omega (arith, bus_cost-append (bus_of m r) new)),
  (ids new, rw (bus, a, o, o', answered-append, ids-append (bus_of m r) new) (simp append_assoc)),
)

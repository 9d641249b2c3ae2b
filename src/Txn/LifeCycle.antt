-- ===== src/Txn/LifeCycle.antt =====
-- transaction/transaction.go: StartTxnLifeCycle.
use smf_cdac.Base.{ℕ, zero, suc, Option, none, some, Outcome, ok, err, panic}
use smf_cdac.Fsm.Handlers.{Producer}
use smf_cdac.Txn.Types.{TxnEvent, init, run, queue, end, exit, Txn, Smf}
use smf_cdac.Txn.Handlers.{Stage, dispatch}

-- How a life cycle stands: it goes on with a transaction and an event, it is over, or it panicked.
pub data Turn : Type 0 where
  goes : Smf → Txn → TxnEvent → Turn
  over : Smf → Txn → Turn
  panicked : Turn

-- What the loop does with a stage's event: it ends at exit and queue.
abbrev pub turn_by : Smf → Txn → TxnEvent → Turn
turn_by m t exit = over m t
turn_by m t queue = over m t
turn_by m t e = goes m t e

-- Behind End, Run goes on with the next transaction, if there is one.
abbrev pub turn_end : Smf → Txn → Option Txn → TxnEvent → Turn
turn_end m t (some u) run = goes m u run
turn_end m t none run = goes m t run
turn_end m t u e = turn_by m t e

unfoldable pub turn_of : TxnEvent → Outcome Stage → Turn
turn_of end (ok s) = turn_end s.smf s.txn s.next_txn s.event
turn_of e (ok s) = turn_by s.smf s.txn s.event
turn_of e err = panicked
turn_of e panic = panicked

-- How a life cycle ended; `running` is for the fuel that ran out.
pub data Ending : Type 0 where
  finished : Smf → Txn → Ending
  crashed : Ending
  running : Ending

-- The loop, by rounds.
unfoldable pub life_cycle : ℕ → (ℕ → Producer) → Turn → Ending
life_cycle zero p turn = running
life_cycle (suc fuel) p (over m t) = finished m t
life_cycle (suc fuel) p panicked = crashed
life_cycle (suc fuel) p (goes m t e) = life_cycle fuel p (turn_of e (dispatch p e m t))

-- StartTxnLifeCycle.
unfoldable pub start_txn_life_cycle : ℕ → (ℕ → Producer) → Smf → Txn → Ending
unfolding life_cycle
start_txn_life_cycle fuel p m t = life_cycle fuel p (goes m t init)

-- ===== src/Pfcp/Server.antt =====
-- pfcp/udp/udp.go: the consumer table and its transaction tables, which are sync.Maps, and what is done
-- with a message that is sent or read.
use smf_cdac.Base.{ℕ, Bool, false, Option, none, some, ◌==◌, if◌then◌else◌, Outcome, ok, err, panic}
use smf_cdac.Base.Text.{Text, text_eq}
use smf_cdac.Pfcp.Transactions.{Message, is_request, is_response, Transaction, Environment, start}

-- TxTable and ConsumerTable, with Load, Store and Delete.
abbrev pub TxTable : Type 0
TxTable = ℕ → Option Transaction

abbrev pub ConsumerTable : Type 0
ConsumerTable = Text → Option TxTable

unfoldable pub tx_load : Option TxTable → ℕ → Option Transaction
tx_load none n = none
tx_load (some t) n = t n

unfoldable pub tx_store : ℕ → Transaction → TxTable → TxTable
tx_store n x t m = if m == n then some x else t m

unfoldable pub tx_delete : ℕ → TxTable → TxTable
tx_delete n t m = if m == n then none else t m

unfoldable pub consumer_store : Text → TxTable → ConsumerTable → ConsumerTable
consumer_store a t c b = if text_eq a b then some t else c b

abbrev pub empty_table : TxTable
empty_table n = none

-- The first test of PutTransaction, which makes a table for a new consumer.
unfoldable pub table_for : ConsumerTable → Text → TxTable
table_for c a = elim (c a) [ some t ↦ t | none ↦ empty_table ]

unfoldable pub with_table : ConsumerTable → Text → ConsumerTable
unfolding consumer_store
with_table c a = elim (c a) [ some t ↦ c | none ↦ consumer_store a empty_table c ]

-- PutTransaction, which refuses a sequence number that is in the table.
unfoldable pub put_transaction : Transaction → ConsumerTable → ConsumerTable × Outcome (Unit {0})
unfolding table_for with_table consumer_store tx_store
put_transaction x c =
    let t = table_for c x.consumer_addr in
    elim (t x.sequence_number) [
      | none ↦ (consumer_store x.consumer_addr (tx_store x.sequence_number x t) c, ok tt)
      | some y ↦ (with_table c x.consumer_addr, err)
    ]

-- findTransaction on a server that listens; a message that is neither finds nothing.
unfoldable pub find_transaction : Message → Text → ConsumerTable → Outcome (Option Transaction)
unfolding is_request is_response tx_load
find_transaction m a c =
    if is_response m
    then elim (tx_load (c a) m.sequence) [ none ↦ err | some x ↦ ok (some x) ]
    else if is_request m
    then ok (tx_load (c a) m.sequence)
    else ok none

-- removeTransaction.
unfoldable pub remove_transaction : Transaction → ConsumerTable → ConsumerTable × Outcome (Unit {0})
unfolding consumer_store tx_delete
remove_transaction x c = elim (c x.consumer_addr) [
  | none ↦ (c, err)
  | some t ↦ elim (t x.sequence_number) [
    | none ↦ (c, err)
    | some y ↦ (consumer_store x.consumer_addr (tx_delete x.sequence_number t) c, ok tt)
  ]
]

-- startTxLifeCycle: the table it leaves, and whether the error handler is called, where the message that
-- was sent parses again.
unfoldable pub start_tx_life_cycle :
    Environment → Transaction → ConsumerTable → ConsumerTable × Bool
unfolding start remove_transaction
start_tx_life_cycle env x c = (
  (remove_transaction x c).0,
  elim (start env x).0 [ ok u ↦ false | err ↦ x.has_err_handler | panic ↦ x.has_err_handler ],
)

-- What readPfcpMessage does with a message that parses: it is dropped, its event goes to a transaction,
-- or it is dispatched, with the transaction whose event data goes along and which gets an event.
pub data Read : Type 0 where
  dropped : Read
  resent : Transaction → Read
  dispatched : Option Transaction → Read

unfoldable pub read_pfcp_message : Message → Text → Text → ConsumerTable → Read
unfolding is_request is_response find_transaction
read_pfcp_message m remote local c =
    if is_request m
    then elim (find_transaction m remote c) [
      | ok (some x) ↦ resent x
      | ok none ↦ dispatched none
      | err ↦ dropped
      | panic ↦ dropped
    ]
    else if is_response m
    then elim (find_transaction m local c) [
      | ok found ↦ dispatched found
      | err ↦ dropped
      | panic ↦ dropped
    ]
    else dispatched none

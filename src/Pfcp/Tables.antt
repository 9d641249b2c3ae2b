-- ===== src/Pfcp/Tables.antt =====
-- The two levels of tables as one map from the address of a consumer and a sequence number to a
-- transaction, and what becomes of a transaction that was put in it.
use smf_cdac.Base.{
  ℕ, ◌≡◌, refl, sym, ◌∙◌, ap, ◌⊎◌, inl, inr, ◌&&◌, Bool-cases, Option, none, some, ◌==◌,
  if◌then◌else◌, arith, Outcome, ok, err, panic,
}
use mathlib.Core.Path.{subst}
use smf_cdac.Base.Text.{Text, text_eq, text_eq→eq}
use smf_cdac.Pfcp.Transactions.{Message, is_request, is_response, Transaction}
use smf_cdac.Pfcp.Server.{
  TxTable, ConsumerTable, tx_load, tx_store, tx_delete, consumer_store, empty_table, table_for,
  with_table, put_transaction, find_transaction, remove_transaction,
}

-- The map that the tables stand for.
abbrev pub View : Type 0
View = Text → ℕ → Option Transaction

unfoldable pub view : ConsumerTable → View
unfolding tx_load
view c a n = tx_load (c a) n

unfoldable pub assign : Text → ℕ → Option Transaction → View → View
assign a n o v b m = if text_eq a b && m == n then o else v b m

-- An operation on the tables, and what it does to the map: it puts a transaction at a free place,
-- removes one that is there, and looks for one, which for a response has to be there.
pub data TableOp : Type 0 where
  putting removing : Transaction → TableOp
  finding : Message → Text → TableOp

unfoldable pub on_view : TableOp → View → View × Outcome (Option Transaction)
unfolding assign is_response is_request
on_view (putting x) v = elim (v x.consumer_addr x.sequence_number) [
  | none ↦ (assign x.consumer_addr x.sequence_number (some x) v, ok none)
  | some y ↦ (v, err)
]
on_view (removing x) v = elim (v x.consumer_addr x.sequence_number) [
  | none ↦ (v, err)
  | some y ↦ (assign x.consumer_addr x.sequence_number none v, ok none)
]
on_view (finding m a) v =
    if is_response m
    then (v, elim (v a m.sequence) [ none ↦ err | some x ↦ ok (some x) ])
    else if is_request m
    then (v, ok (v a m.sequence))
    else (v, ok none)

abbrev pub no_result : Outcome (Unit {0}) → Outcome (Option Transaction)
no_result (ok u) = ok none
no_result err = err
no_result panic = panic

unfoldable pub on_tables : TableOp → ConsumerTable → ConsumerTable × Outcome (Option Transaction)
unfolding put_transaction remove_transaction find_transaction
on_tables (putting x) c = ((put_transaction x c).0, no_result (put_transaction x c).1)
on_tables (removing x) c = ((remove_transaction x c).0, no_result (remove_transaction x c).1)
on_tables (finding m a) c = (c, find_transaction m a c)

-- The same result, and the same map at every place.
abbrev pub Refines :
    ConsumerTable × Outcome (Option Transaction) → View × Outcome (Option Transaction) → Type 0
Refines r s = ((a : Text) (n : ℕ) → view r.0 a n ≡ s.0 a n) × (r.1 ≡ s.1)

table_cases {ℓ} : {A : Type ℓ} (o : Option A) → (o ≡ none) ⊎ ((a : A) × (o ≡ some a))
table_cases none = inl refl
table_cases (some a) = inr (a, refl)

view-store :
    (a : Text) (t : TxTable) (c : ConsumerTable) (b : Text) (m : ℕ)
    → view (consumer_store a t c) b m ≡ (if text_eq a b then t m else view c b m)
unfolding view consumer_store tx_load
view-store a t c b m = ground arith

table_for-view : (c : ConsumerTable) (a : Text) (n : ℕ) → table_for c a n ≡ view c a n
unfolding view tx_load table_for
table_for-view c a n = elim (table_cases (c a)) [
  | inl e ↦ rw (table_for, view, e) refl
  | inr (t, e) ↦ rw (table_for, view, e) refl
]

view-none : (c : ConsumerTable) (a : Text) (n : ℕ) → c a ≡ none → view c a n ≡ none
unfolding view tx_load
view-none c a n e = rw (view, e) refl

view-some : (c : ConsumerTable) (a : Text) (t : TxTable) (n : ℕ) → c a ≡ some t → t n ≡ view c a n
unfolding view tx_load
view-some c a t n e = rw (view, e) refl

with_table-view : (c : ConsumerTable) (a b : Text) (n : ℕ) → view (with_table c a) b n ≡ view c b n
unfolding with_table
with_table-view c a b n = elim (table_cases (c a)) [
  | inr (t, e) ↦ rw (with_table, e) refl
  | inl e ↦
      rw (with_table, e)
        (view-store a empty_table c b n ∙ elim (Bool-cases (text_eq a b)) [
          | inl q ↦
              let same = text_eq→eq a b q in
              rw q (sym (view-none c b n (subst (λ k. c k ≡ none) same e)))
          | inr q ↦ rw q refl
        ])
]

-- A table with one place changed, stored again.
stored :
    (c : ConsumerTable) (a : Text) (t u : TxTable) (n : ℕ) (o : Option Transaction)
    → ((m : ℕ) → t m ≡ view c a m)
    → ((m : ℕ) → u m ≡ (if m == n then o else t m))
    → (b : Text) (m : ℕ) → view (consumer_store a u c) b m ≡ assign a n o (view c) b m
unfolding assign
stored c a t u n o f k b m = view-store a u c b m ∙ elim (Bool-cases (text_eq a b)) [
  | inl q ↦
      let same = text_eq→eq a b q in
      let here = f m in
      let there = k m in
      let moved : view c a m ≡ view c b m = ap (λ x. view c x m) same in ground arith
  | inr q ↦ ground arith
]

putting-Refines :
    (x : Transaction) (c : ConsumerTable)
    → Refines (on_tables (putting x) c) (on_view (putting x) (view c))
unfolding on_tables on_view put_transaction tx_store
putting-Refines x c =
    let t = table_for c x.consumer_addr in
    let f = table_for-view c x.consumer_addr in
    elim (table_cases (t x.sequence_number)) [
      | inl e ↦
          let v : view c x.consumer_addr x.sequence_number ≡ none = sym (f x.sequence_number) ∙ e in
          rw (put_transaction, e, on_view, v)
            (
              stored c x.consumer_addr t (tx_store x.sequence_number x t) x.sequence_number (some x)
                  f (λ m. refl),
              refl,
            )
      | inr (y, e) ↦
          let v : view c x.consumer_addr x.sequence_number ≡ some y =
            sym (f x.sequence_number) ∙ e in
          rw (put_transaction, e, on_view, v) (with_table-view c x.consumer_addr, refl)
    ]

removing-Refines :
    (x : Transaction) (c : ConsumerTable)
    → Refines (on_tables (removing x) c) (on_view (removing x) (view c))
unfolding on_tables on_view remove_transaction tx_delete
removing-Refines x c = elim (table_cases (c x.consumer_addr)) [
  | inl e ↦
      let v = view-none c x.consumer_addr x.sequence_number e in
      rw (remove_transaction, e, on_view, v) (λ a n. refl, refl)
  | inr (t, e) ↦
      let f : (m : ℕ) → t m ≡ view c x.consumer_addr m = λ m. view-some c x.consumer_addr t m e in
      elim (table_cases (t x.sequence_number)) [
        | inl q ↦
            let v : view c x.consumer_addr x.sequence_number ≡ none =
              sym (f x.sequence_number) ∙ q in
            rw (remove_transaction, e, q, on_view, v) (λ a n. refl, refl)
        | inr (y, q) ↦
            let v : view c x.consumer_addr x.sequence_number ≡ some y =
              sym (f x.sequence_number) ∙ q in
            rw (remove_transaction, e, q, on_view, v)
              (
                stored c x.consumer_addr t (tx_delete x.sequence_number t) x.sequence_number none f
                    (λ m. refl),
                refl,
              )
      ]
]

-- What PutTransaction, removeTransaction and findTransaction do to the two levels of tables, and what
-- they return, is what they would do to one map from an address and a sequence number to a
-- transaction: put at a place that is free, refused elsewhere; remove what is there, refused elsewhere;
-- find what is there, which for a response is an error where nothing is.
pub on_tables-Refines :
    (o : TableOp) (c : ConsumerTable) → Refines (on_tables o c) (on_view o (view c))
unfolding on_tables on_view find_transaction view
on_tables-Refines (putting x) c = putting-Refines x c
on_tables-Refines (removing x) c = removing-Refines x c
on_tables-Refines (finding m a) c = elim (Bool-cases (is_response m)) [
  | inl e ↦ rw (find_transaction, on_view, e) (λ b n. refl, refl)
  | inr e ↦ elim (Bool-cases (is_request m)) [
    | inl q ↦ rw (find_transaction, on_view, e, q) (λ b n. refl, refl)
    | inr q ↦ rw (find_transaction, on_view, e, q) (λ b n. refl, refl)
  ]
]

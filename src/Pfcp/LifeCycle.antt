-- ===== src/Pfcp/LifeCycle.antt =====
-- What becomes of a transaction that was put in the tables and started.
use smf_cdac.Base.{
  ℕ, zero, suc, ◌+◌, ◌<◌, ◌≡◌, ◌≢◌, refl, sym, ◌∙◌, ap, ◌⊎◌, inl, inr, Bool, true, false,
  Bool-cases, Option, none, some, arith, Outcome, ok, err, panic,
}
use smf_cdac.Base.Text.{Text, text_eq, text_eq→eq, text_eq_self}
use smf_cdac.Pfcp.Transactions.{
  receive_valid_response, Transaction, sending_request, Round, write_fails, event, Environment,
  num_of_resend, start,
}
use smf_cdac.Pfcp.Rounds.{Silent, FirstAt, Report, start-Report}
use smf_cdac.Pfcp.Server.{ConsumerTable, put_transaction, remove_transaction, start_tx_life_cycle}
use smf_cdac.Pfcp.Tables.{
  View, view, assign, no_result, putting, removing, on_view, on_tables, on_tables-Refines,
}

-- A valid response comes in one of the rounds, behind rounds that are silent.
abbrev pub Answered : Environment → Type 0
Answered env = (k : ℕ) × (k < num_of_resend) × FirstAt env 0 k (event receive_valid_response)

not-Silent : (r : Round) → Silent r → (r ≢ write_fails) × (r ≢ event receive_valid_response)
not-Silent r (inl e) = (λ q. cc, λ q. cc)
not-Silent r (inr e) = (λ q. cc, λ q. cc)

order_cases : (k m : ℕ) → (k < m) ⊎ ((m < k) ⊎ (k ≡ m))
order_cases zero zero = inr (inr refl)
order_cases zero (suc m) = inl (omega arith)
order_cases (suc k) zero = inr (inl (omega arith))
order_cases (suc k) (suc m) = elim (order_cases k m) [
  | inl l ↦ inl (omega arith)
  | inr (inl l) ↦ inr (inl (omega arith))
  | inr (inr e) ↦ inr (inr (ap suc e))
]

-- Two first rounds that are not silent are one.
one_first :
    (env : Environment) (k m : ℕ)
    → FirstAt env 0 k write_fails
    → ¬ FirstAt env 0 m (event receive_valid_response)
one_first env k m f g = elim (order_cases k m) [
  | inl l ↦ (not-Silent (env (0 + k)) (g.1 k l)).0 f.0
  | inr (inl l) ↦ (not-Silent (env (0 + m)) (f.1 m l)).1 g.0
  | inr (inr e) ↦ (let q = f.0 in let r = g.0 in cc)
]

-- The error handler is called exactly where no valid response came.
abbrev pub HandlerSettled : Environment → Bool → Type 0
HandlerSettled env called = (Answered env × (called ≡ false)) ⊎ ((¬ Answered env) × (called ≡ true))

handler_settled :
    (env : Environment) (h : Bool) (r : Outcome (Unit {0}) × ℕ)
    → h ≡ true
    → Report env num_of_resend 0 r
    → HandlerSettled env (elim r.0 [ ok u ↦ false | err ↦ h | panic ↦ h ])
handler_settled env h (ok u, sent) e (k, l, f, q) = inl ((k, l, f), refl)
handler_settled env h (err, sent) e (inl (k, l, f, q)) = inr (λ a. one_first env k a.0 f a.2, e)
handler_settled env h (err, sent) e (inr (f, q)) =
    inr (λ a. (not-Silent (env (0 + a.0)) (f a.0 a.1)).1 a.2.0, e)
handler_settled env h (panic, sent) e p = absurd p

-- What put a transaction at its place, taken away again.
put_and_removed :
    (a : Text) (n : ℕ) (x : Transaction) (v : View) (b : Text) (m : ℕ)
    → v a n ≡ none
    → assign a n none (assign a n (some x) v) b m ≡ v b m
unfolding assign
put_and_removed a n x v b m e = elim (Bool-cases (text_eq a b)) [
  | inl q ↦
      let same = text_eq→eq a b q in
      let moved : v a n ≡ v b n = ap (λ k. v k n) same in ground arith
  | inr q ↦ ground arith
]

same_assign :
    (a : Text) (n : ℕ) (v w : View) (b : Text) (m : ℕ)
    → v b m ≡ w b m
    → assign a n none v b m ≡ assign a n none w b m
unfolding assign
same_assign a n v w b m e = ground arith

option_cases : (o : Option Transaction) → (o ≡ none) ⊎ ((x : Transaction) × (o ≡ some x))
option_cases none = inl refl
option_cases (some x) = inr (x, refl)

put_view :
    (x : Transaction) (c d : ConsumerTable)
    → put_transaction x c ≡ (d, ok tt)
    → (view c x.consumer_addr x.sequence_number ≡ none)
      × ((b : Text) (m : ℕ)
          → view d b m ≡ assign x.consumer_addr x.sequence_number (some x) (view c) b m)
unfolding on_tables on_view
put_view x c d e =
    let a = x.consumer_addr in
    let n = x.sequence_number in
    let r = on_tables-Refines (putting x) c in
    let table : (put_transaction x c).0 ≡ d =
      ap (λ (s : ConsumerTable × Outcome (Unit {0})). s.0) e in
    let result : (put_transaction x c).1 ≡ ok tt =
      ap (λ (s : ConsumerTable × Outcome (Unit {0})). s.1) e in
    elim (option_cases (view c a n)) [
      | inl v ↦
          let q : on_view (putting x) (view c) ≡ (assign a n (some x) (view c), ok none) =
            rw (on_view, v) refl in
          (
            v,
            λ b m.
                ap (λ k. view k b m) (sym table)
                ∙ (r.0 b m ∙ ap (λ (s : View × Outcome (Option Transaction)). s.0 b m) q),
          )
      | inr (y, v) ↦
          let q : on_view (putting x) (view c) ≡ (view c, err) = rw (on_view, v) refl in
          let failed : no_result (put_transaction x c).1 ≡ err =
            r.1 ∙ ap (λ (s : View × Outcome (Option Transaction)). s.1) q in
          let no : no_result (ok tt) ≡ err = ap no_result (sym result) ∙ failed in absurd (cc)
    ]

removed_view :
    (x y : Transaction) (d : ConsumerTable)
    → view d x.consumer_addr x.sequence_number ≡ some y
    → (b : Text) (m : ℕ)
    → view (remove_transaction x d).0 b m
      ≡ assign x.consumer_addr x.sequence_number none (view d) b m
unfolding on_tables on_view
removed_view x y d e b m =
    let r = on_tables-Refines (removing x) d in
    let q : on_view (removing x) (view d)
        ≡ (assign x.consumer_addr x.sequence_number none (view d), ok none) =
      rw (on_view, e) refl in
    r.0 b m ∙ ap (λ (s : View × Outcome (Option Transaction)). s.0 b m) q

-- A request with an error handler that PutTransaction accepted is settled by its life cycle, in any
-- environment: the tables hold what they held before it was put, and the error handler was called
-- exactly if no valid response came within the three rounds.
pub start_tx_life_cycle-HandlerSettled :
    (env : Environment) (x : Transaction) (c d : ConsumerTable)
    → x.tx_type ≡ sending_request
    → x.has_err_handler ≡ true
    → put_transaction x c ≡ (d, ok tt)
    → let r = start_tx_life_cycle env x d in
      ((b : Text) (m : ℕ) → view r.0 b m ≡ view c b m) × HandlerSettled env r.1
unfolding start_tx_life_cycle assign
start_tx_life_cycle-HandlerSettled env x c d e h p =
    let a = x.consumer_addr in
    let n = x.sequence_number in
    let v = put_view x c d p in
    let self = text_eq_self a in
    let there : view d a n ≡ some x = v.1 a n ∙ ground arith in
    (
      λ b m.
          removed_view x x d there b m
          ∙ (same_assign a n (view d) (assign a n (some x) (view c)) b m (v.1 b m)
              ∙ put_and_removed a n x (view c) b m v.0),
      handler_settled env x.has_err_handler (start env x) h (start-Report env x e),
    )

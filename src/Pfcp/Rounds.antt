-- ===== src/Pfcp/Rounds.antt =====
-- Start writes at most NumOfResend packets, and returns no error exactly where a valid response comes in
-- one of the rounds.
use smf_cdac.Base.{
  ℕ, zero, suc, ◌+◌, ◌<◌, ◌≡◌, refl, ap, ◌⊎◌, inl, inr, arith, Outcome, ok, err, panic,
}
use smf_cdac.Pfcp.Transactions.{
  receive_resend_request, receive_valid_response, sending_request, Transaction, Round, write_fails,
  event, timer, Environment, num_of_resend, request_rounds, start,
}

-- A round of a request that ends with no answer: nothing comes, or something else.
abbrev pub Silent : Round → Type 0
Silent r = (r ≡ timer) ⊎ (r ≡ event receive_resend_request)

-- The round `i + k` is the first that is not silent, and is like `r`.
abbrev pub FirstAt : Environment → ℕ → ℕ → Round → Type 0
FirstAt env i k r = (env (i + k) ≡ r) × ((j : ℕ) → j < k → Silent (env (i + j)))

-- What the rounds of a request return and how many packets were written: the valid response came in
-- round k, behind k + 1 packets; a write failed behind k packets; or every round was silent.
abbrev pub Report : Environment → ℕ → ℕ → Outcome (Unit {0}) × ℕ → Type 0
Report env left i (ok u, sent) =
    (k : ℕ) × (k < left) × FirstAt env i k (event receive_valid_response) × (sent ≡ suc k)
Report env left i (err, sent) =
    ((k : ℕ) × (k < left) × FirstAt env i k write_fails × (sent ≡ k))
    ⊎ (((j : ℕ) → j < left → Silent (env (i + j))) × (sent ≡ left))
Report env left i (panic, sent) = ⊥

round_cases : (r : Round) → (r ≡ write_fails) ⊎ ((r ≡ event receive_valid_response) ⊎ Silent r)
round_cases write_fails = inl refl
round_cases (event receive_resend_request) = inr (inr (inr refl))
round_cases (event receive_valid_response) = inr (inl refl)
round_cases timer = inr (inr (inl refl))

module _ (env : Environment) where
  at_start : (i : ℕ) (r : Round) → env i ≡ r → FirstAt env i 0 r
  at_start i r e = let here : i + 0 ≡ i = omega arith in (rw here e, λ j l. absurd (omega arith))

  Silent-FirstAt :
      (i k : ℕ) (r : Round) → Silent (env i) → FirstAt env (suc i) k r → FirstAt env i (suc k) r
  Silent-FirstAt i k r s f =
      let next : i + suc k ≡ suc i + k = omega arith in (rw next f.0, by_round)
    where
      by_round : (j : ℕ) → j < suc k → Silent (env (i + j))
      by_round zero l = let here : i + 0 ≡ i = omega arith in rw here s
      by_round (suc j) l =
          let there : i + suc j ≡ suc i + j = omega arith in rw there (f.1 j (omega arith))

  all-Silent :
      (left i : ℕ)
      → Silent (env i)
      → ((j : ℕ) → j < left → Silent (env (suc i + j)))
      → (j : ℕ) → j < suc left
      → Silent (env (i + j))
  all-Silent left i s f zero l = let here : i + 0 ≡ i = omega arith in rw here s
  all-Silent left i s f (suc j) l =
      let there : i + suc j ≡ suc i + j = omega arith in rw there (f j (omega arith))

  -- A silent round in front of the others.
  later :
      (left i : ℕ) (r : Outcome (Unit {0}) × ℕ)
      → Silent (env i)
      → Report env left (suc i) r
      → Report env (suc left) i (r.0, suc r.1)
  later left i (ok u, sent) s (k, l, f, e) =
      (suc k, omega arith, Silent-FirstAt i k _ s f, ap suc e)
  later left i (err, sent) s (inl (k, l, f, e)) =
      inl (suc k, omega arith, Silent-FirstAt i k _ s f, ap suc e)
  later left i (err, sent) s (inr (f, e)) = inr (all-Silent left i s f, ap suc e)
  later left i (panic, sent) s p = p

  request_rounds-Report : (left i : ℕ) → Report env left i (request_rounds env left i)
  unfolding request_rounds
  request_rounds-Report zero i = inr (λ j l. absurd (omega arith), refl)
  request_rounds-Report (suc left) i =
      let rest = request_rounds-Report left (suc i) in
      elim (round_cases (env i)) [
        | inl e ↦ rw (request_rounds, e) (inl (0, omega arith, at_start i write_fails e, refl))
        | inr (inl e) ↦ rw (request_rounds, e) (0, omega arith, at_start i _ e, refl)
        | inr (inr (inl e)) ↦
            rw (request_rounds, e) (later left i (request_rounds env left (suc i)) (inl e) rest)
        | inr (inr (inr e)) ↦
            rw (request_rounds, e) (later left i (request_rounds env left (suc i)) (inr e) rest)
      ]

-- Start of a request transaction returns, in any environment. It returns no error where one of its
-- three rounds, behind rounds that are silent, gets a valid response, and one packet was written for
-- each round up to that one; else it returns an error, because a write failed in the first round that
-- was not silent, or because all three rounds were silent and three packets were written.
pub start-Report :
    (env : Environment) (t : Transaction)
    → t.tx_type ≡ sending_request
    → Report env num_of_resend 0 (start env t)
unfolding start
start-Report env t e = rw (start, e) (request_rounds-Report env num_of_resend 0)

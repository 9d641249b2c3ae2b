-- ===== src/Examples/Upf.antt =====
-- A generator that hands out the greatest free id, UPFs that draw their ids from it, and a data path
-- over two of them.
use smf_cdac.Base.{
  ℕ, zero, suc, ◌≤◌, ◌≡◌, refl, Bool, true, false, Bool-cases, inl, inr, Option, none, some, [],
  ◌∷◌, if◌then◌else◌, arith, err,
}
use smf_cdac.Base.Text.{codes}
use smf_cdac.Qos.Types.{downlink, FlowInformation, PccRule}
use smf_cdac.Examples.Policy.{pcc}
use smf_cdac.Upf.Ids.{IdGenerator, IdGeneratorLaws}
use smf_cdac.Upf.Rules.{
  associated_set_up_success, Shelf, Upf, Pdr, Far, new_far, new_pdr, store, remove, add_pdr,
  remove_pdr, remove_far, build_create_pdr_from_pcc_rule, sdf_filter_of,
}
use smf_cdac.Upf.RuleLaws.{Tracked}
use smf_cdac.Upf.Tracking.{apply_op, building, apply_op-Tracked}
use smf_cdac.Upf.Leaks.{add_pdr-remove_pdr, build_create_pdr_from_pcc_rule-leak}

-- The ids that are out, and the greatest.
record Drawn : Type 0 where
  top : ℕ
  out : ℕ → Bool

greatest : ℕ → (ℕ → Bool) → Option ℕ
greatest zero o = none
greatest (suc k) o = let below = greatest k o in if o (suc k) then below else some (suc k)

draw : Drawn → Option ℕ → Option (ℕ × Drawn)
draw s none = none
draw s (some n) = some (n, record s { out = store n s.out })

abbrev downwards : IdGenerator
unfolding greatest draw
downwards = record {
  State = Drawn;
  allocate = λ s. draw s (greatest s.top s.out);
  free_id = λ n s. record s { out = remove n s.out };
  max_id = λ s. s.top;
  is_out = λ s. s.out;
}

greatest_free : (k : ℕ) (o : ℕ → Bool) (n : ℕ) → greatest k o ≡ some n → (o n ≡ false) × (n ≤ k)
unfolding greatest
greatest_free zero o n e = absurd (cc)
greatest_free (suc k) o n e = elim (Bool-cases (o (suc k))) [
  | inl q ↦ let ih = greatest_free k o n (rw q at e) in (ih.0, omega (arith, ih.1))
  | inr q ↦ let j : some (suc k) ≡ some n = rw q at e in ground arith
]

drawn :
    (s : Drawn) (o : Option ℕ) (n : ℕ) (t : Drawn)
    → draw s o ≡ some (n, t)
    → (o ≡ some n) × (t ≡ record s { out = store n s.out })
unfolding draw
drawn s none n t e = absurd (cc)
drawn s (some m) n t e = ground arith

downwards_laws : IdGeneratorLaws downwards
unfolding downwards
downwards_laws = record {
  allocate-fresh = λ s n t e.
      let d = drawn s (greatest s.top s.out) n t e in
      let f = greatest_free s.top s.out n d.0 in (f.0, rw d.1 (ground arith), f.1);
  allocate-others =
      λ s n t e m ne. let d = drawn s (greatest s.top s.out) n t e in rw d.1 (ground arith);
  allocate-max_id = λ s n t e. let d = drawn s (greatest s.top s.out) n t e in rw d.1 refl;
  free_id-freed = λ s n. ground arith;
  free_id-others = λ s n m ne. ground arith;
  free_id-max_id = λ s n. refl;
}

abbrev shelf : ℕ → Shelf downwards
unfolding downwards
shelf k = record { ids = record { top = k; out = λ n. false }; pool = λ n. false }

abbrev fresh_upf : Upf downwards
unfolding shelf downwards
fresh_upf = record {
  status = associated_set_up_success;
  pdrs = shelf 4;
  fars = shelf 5;
  bars = shelf 2;
  qers = shelf 3;
}

fresh_upf-Tracked : Tracked downwards fresh_upf
unfolding fresh_upf shelf downwards
fresh_upf-Tracked = record {
  pdrs = record { same = λ n. refl; fits = omega arith };
  fars = record { same = λ n. refl; fits = omega arith };
  bars = record { same = λ n. refl; fits = omega arith };
  qers = record { same = λ n. refl; fits = omega arith };
}

-- Its state once a PDR is added.
abbrev with_pdr : Upf downwards
unfolding add_pdr fresh_upf shelf downwards
with_pdr = (add_pdr downwards fresh_upf).0

abbrev first_far : Far
first_far = new_far downwards 5

abbrev first_pdr : Pdr
first_pdr = new_pdr downwards 4 first_far

add_pdr-remove_pdr_example :
    ((n : ℕ)
      → (remove_far downwards first_far (remove_pdr downwards first_pdr with_pdr)).pdrs.pool n
        ≡ fresh_upf.pdrs.pool n)
    × ((n : ℕ)
        → (remove_far downwards first_far (remove_pdr downwards first_pdr with_pdr)).fars.pool n
          ≡ fresh_upf.fars.pool n)
    × ((remove_far downwards first_far (remove_pdr downwards first_pdr with_pdr)).bars
        ≡ fresh_upf.bars)
    × ((remove_far downwards first_far (remove_pdr downwards first_pdr with_pdr)).qers
        ≡ fresh_upf.qers)
unfolding add_pdr with_pdr fresh_upf shelf downwards
add_pdr-remove_pdr_example =
    add_pdr-remove_pdr downwards downwards_laws fresh_upf with_pdr first_pdr first_far
      fresh_upf-Tracked refl refl

abbrev bad_flow : FlowInformation
bad_flow = record {
  flow_description = codes "permit out ip from any to assigned";
  pack_filt_id = codes "one";
  flow_direction = downlink;
  tos_traffic_class = [];
  flow_label = [];
  spi = [];
}

abbrev bad_rule : PccRule
bad_rule = record (pcc (codes "1")) { flow_infos = bad_flow ∷ [] }

build_create_pdr_from_pcc_rule-leak_example :
    (build_create_pdr_from_pcc_rule downwards bad_rule fresh_upf ≡ (with_pdr, err))
    × (fresh_upf.pdrs.pool 4 ≡ false)
    × (with_pdr.pdrs.pool 4 ≡ true)
    × (fresh_upf.fars.pool 5 ≡ false)
    × (with_pdr.fars.pool 5 ≡ true)
unfolding add_pdr sdf_filter_of with_pdr fresh_upf shelf downwards
build_create_pdr_from_pcc_rule-leak_example =
    build_create_pdr_from_pcc_rule-leak downwards downwards_laws fresh_upf with_pdr bad_rule
      bad_flow [] first_pdr first_far fresh_upf-Tracked refl refl refl refl

apply_op-Tracked_example : Tracked downwards (apply_op downwards (building bad_rule) fresh_upf)
apply_op-Tracked_example =
    apply_op-Tracked downwards downwards_laws (building bad_rule) fresh_upf fresh_upf-Tracked

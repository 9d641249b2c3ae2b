-- ===== src/Upf/Tracking.antt =====
-- What is out is what the pools hold, through every operation on the rules of a UPF.
use smf_cdac.Base.{ℕ, ◌≡◌, refl, sym, Option, none, some, Outcome, ok, err, panic}
use mathlib.Core.Path.{subst}
use smf_cdac.Upf.Ids.{IdGenerator, IdGeneratorLaws}
use smf_cdac.Qos.Types.{PccRule}
use smf_cdac.Upf.Rules.{
  UpfStatus, not_associated, associated_setting_up, associated_set_up_success, Bar, Far, Qer, Pdr,
  Shelf, Upf, if_associated, stored_far, stored_pdr, stored_bar, stored_qer, take_id, give_back,
  with_far, add_far, add_pdr, add_bar, add_qer, remove_pdr, remove_far, remove_bar, remove_qer,
  build_create_pdr_from_pcc_rule,
}
use smf_cdac.Upf.RuleLaws.{Tracked, TakenFrom, take_id-TakenFrom, give_back-ShelfTracked}

-- An operation on the rules of a UPF.
pub data RuleOp : Type 0 where
  adding_pdr adding_far adding_bar adding_qer : RuleOp
  building : PccRule → RuleOp
  removing_pdr : Pdr → RuleOp
  removing_far : Far → RuleOp
  removing_bar : Bar → RuleOp
  removing_qer : Qer → RuleOp

unfoldable pub apply_op : (g : IdGenerator) → RuleOp → Upf g → Upf g
unfolding add_pdr add_far add_bar add_qer build_create_pdr_from_pcc_rule remove_pdr remove_far
    remove_bar remove_qer
apply_op g adding_pdr u = (add_pdr g u).0
apply_op g adding_far u = (add_far g u).0
apply_op g adding_bar u = (add_bar g u).0
apply_op g adding_qer u = (add_qer g u).0
apply_op g (building r) u = (build_create_pdr_from_pcc_rule g r u).0
apply_op g (removing_pdr p) u = remove_pdr g p u
apply_op g (removing_far f) u = remove_far g f u
apply_op g (removing_bar b) u = remove_bar g b u
apply_op g (removing_qer q) u = remove_qer g q u

module _ (g : IdGenerator) where
  -- Both sides of the test of the association.
  either :
      {A : Type 0} (P : A → Type 0) (s : UpfStatus) (v w : A)
      → P v
      → P w
      → P (if_associated g s v w)
  either P associated_set_up_success v w p q = p
  either P not_associated v w p q = q
  either P associated_setting_up v w p q = q

module _ (g : IdGenerator) (laws : IdGeneratorLaws g) where
  stored_far-Tracked :
      (u : Upf g) (o : Option (ℕ × Shelf g))
      → Tracked g u
      → TakenFrom g laws 32 u.fars o
      → Tracked g (stored_far g u o).0
  unfolding stored_far
  stored_far-Tracked u none k f = k
  stored_far-Tracked u (some (n, s)) k f = record {
    pdrs = k.pdrs;
    fars = f.0;
    bars = k.bars;
    qers = k.qers;
  }

  add_far-Tracked : (u : Upf g) → Tracked g u → Tracked g (add_far g u).0
  unfolding add_far
  add_far-Tracked u k =
      either g (λ r. Tracked g r.0) u.status (stored_far g u (take_id g 32 u.fars)) (u, err)
        (stored_far-Tracked u (take_id g 32 u.fars) k (take_id-TakenFrom g laws 32 u.fars k.fars)) k

  with_far-same : (n : ℕ) (r : Upf g × Outcome Far) → (with_far g n r).0 ≡ r.0
  unfolding with_far
  with_far-same n (u, ok f) = refl
  with_far-same n (u, err) = refl
  with_far-same n (u, panic) = refl

  stored_pdr-Tracked :
      (u : Upf g) (o : Option (ℕ × Shelf g))
      → Tracked g u
      → TakenFrom g laws 16 u.pdrs o
      → Tracked g (stored_pdr g u o).0
  unfolding stored_pdr
  stored_pdr-Tracked u none k f = k
  stored_pdr-Tracked u (some (n, s)) k f =
      let v : Upf g = record u { pdrs = s } in
      subst (Tracked g) (sym (with_far-same n (add_far g v)))
        (add_far-Tracked v (record { pdrs = f.0; fars = k.fars; bars = k.bars; qers = k.qers }))

  add_pdr-Tracked : (u : Upf g) → Tracked g u → Tracked g (add_pdr g u).0
  unfolding add_pdr
  add_pdr-Tracked u k =
      either g (λ r. Tracked g r.0) u.status (stored_pdr g u (take_id g 16 u.pdrs)) (u, err)
        (stored_pdr-Tracked u (take_id g 16 u.pdrs) k (take_id-TakenFrom g laws 16 u.pdrs k.pdrs)) k

  stored_bar-Tracked :
      (u : Upf g) (o : Option (ℕ × Shelf g))
      → Tracked g u
      → TakenFrom g laws 8 u.bars o
      → Tracked g (stored_bar g u o).0
  unfolding stored_bar
  stored_bar-Tracked u none k f = k
  stored_bar-Tracked u (some (n, s)) k f = record {
    pdrs = k.pdrs;
    fars = k.fars;
    bars = f.0;
    qers = k.qers;
  }

  add_bar-Tracked : (u : Upf g) → Tracked g u → Tracked g (add_bar g u).0
  unfolding add_bar
  add_bar-Tracked u k =
      either g (λ r. Tracked g r.0) u.status (stored_bar g u (take_id g 8 u.bars)) (u, err)
        (stored_bar-Tracked u (take_id g 8 u.bars) k (take_id-TakenFrom g laws 8 u.bars k.bars)) k

  stored_qer-Tracked :
      (u : Upf g) (o : Option (ℕ × Shelf g))
      → Tracked g u
      → TakenFrom g laws 32 u.qers o
      → Tracked g (stored_qer g u o).0
  unfolding stored_qer
  stored_qer-Tracked u none k f = k
  stored_qer-Tracked u (some (n, s)) k f = record {
    pdrs = k.pdrs;
    fars = k.fars;
    bars = k.bars;
    qers = f.0;
  }

  add_qer-Tracked : (u : Upf g) → Tracked g u → Tracked g (add_qer g u).0
  unfolding add_qer
  add_qer-Tracked u k =
      either g (λ r. Tracked g r.0) u.status (stored_qer g u (take_id g 32 u.qers)) (u, err)
        (stored_qer-Tracked u (take_id g 32 u.qers) k (take_id-TakenFrom g laws 32 u.qers k.qers)) k

  -- Ids given back, of each kind.
  remove_pdr-Tracked : (p : Pdr) (u : Upf g) → Tracked g u → Tracked g (remove_pdr g p u)
  unfolding remove_pdr
  remove_pdr-Tracked p u k =
      let s = give_back-ShelfTracked g laws 16 p.pdr_id u.pdrs k.pdrs in
      either g (Tracked g) u.status (record u { pdrs = give_back g p.pdr_id u.pdrs }) u
        (record { pdrs = s; fars = k.fars; bars = k.bars; qers = k.qers }) k

  remove_far-Tracked : (f : Far) (u : Upf g) → Tracked g u → Tracked g (remove_far g f u)
  unfolding remove_far
  remove_far-Tracked f u k =
      let s = give_back-ShelfTracked g laws 32 f.far_id u.fars k.fars in
      either g (Tracked g) u.status (record u { fars = give_back g f.far_id u.fars }) u
        (record { pdrs = k.pdrs; fars = s; bars = k.bars; qers = k.qers }) k

  remove_bar-Tracked : (b : Bar) (u : Upf g) → Tracked g u → Tracked g (remove_bar g b u)
  unfolding remove_bar
  remove_bar-Tracked b u k =
      let s = give_back-ShelfTracked g laws 8 b.bar_id u.bars k.bars in
      either g (Tracked g) u.status (record u { bars = give_back g b.bar_id u.bars }) u
        (record { pdrs = k.pdrs; fars = k.fars; bars = s; qers = k.qers }) k

  remove_qer-Tracked : (q : Qer) (u : Upf g) → Tracked g u → Tracked g (remove_qer g q u)
  unfolding remove_qer
  remove_qer-Tracked q u k =
      let s = give_back-ShelfTracked g laws 32 q.qer_id u.qers k.qers in
      either g (Tracked g) u.status (record u { qers = give_back g q.qer_id u.qers }) u
        (record { pdrs = k.pdrs; fars = k.fars; bars = k.bars; qers = s }) k

  -- Whatever rule is added to a UPF, built for a PCC rule or removed, and whether or not that
  -- succeeds, the ids that are out stay exactly the keys of the pools, for each kind of rule.
  pub apply_op-Tracked : (o : RuleOp) (u : Upf g) → Tracked g u → Tracked g (apply_op g o u)
  unfolding apply_op build_create_pdr_from_pcc_rule
  apply_op-Tracked adding_pdr u k = add_pdr-Tracked u k
  apply_op-Tracked adding_far u k = add_far-Tracked u k
  apply_op-Tracked adding_bar u k = add_bar-Tracked u k
  apply_op-Tracked adding_qer u k = add_qer-Tracked u k
  apply_op-Tracked (building r) u k = add_pdr-Tracked u k
  apply_op-Tracked (removing_pdr p) u k = remove_pdr-Tracked p u k
  apply_op-Tracked (removing_far f) u k = remove_far-Tracked f u k
  apply_op-Tracked (removing_bar b) u k = remove_bar-Tracked b u k
  apply_op-Tracked (removing_qer q) u k = remove_qer-Tracked q u k

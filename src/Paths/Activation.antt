-- ===== src/Paths/Activation.antt =====
-- ActivateTunnelAndPDR as passes over the list of a path's nodes.
use smf_cdac.Base.{ℕ, ◌<◌, ◌≡◌, refl, Option, List, Outcome, ok, err, panic, length}
use smf_cdac.Upf.Ids.{IdGenerator}
use smf_cdac.Paths.Nodes.{NodeHeap}
use smf_cdac.Paths.Tunnels.{PathState}
use smf_cdac.Paths.Steps.{PathEnv, PathSession, Act, after, along}
use smf_cdac.Paths.Install.{validate_at, allocate_seid_at, activate_tunnels_at}
use smf_cdac.Paths.Activate.{activate_pdrs_at, activate_tunnel_and_pdr}
use smf_cdac.Paths.Passes.{Along, Shape, Shape-trans, visit, Shape-visit, along-visit, Along-Shape}
use smf_cdac.Paths.Kept.{validate_at-Keeps, allocate_seid_at-Keeps, activate_tunnels_at-Keeps}
use smf_cdac.Paths.Untouched.{activate_pdrs_at-Keeps}

module _ (g : IdGenerator) (e : PathEnv) (c : PathSession) where
  -- The four passes of ActivateTunnelAndPDR over the nodes of its path.
  abbrev pub passes : Option ℕ → ℕ → List ℕ → Act g (Unit {0})
  passes first prec ns s = after (visit (validate_at g e) ns s) λ valid t.
      after (visit (allocate_seid_at g e) ns t) λ seids v.
        after (visit (activate_tunnels_at g e c) ns v)
          λ tunnels. visit (activate_pdrs_at g e c first prec) ns

  same_after :
      {A B : Type 0} (h : NodeHeap) (r : PathState g × Outcome A) (f k : A → Act g B)
      → Shape h r.0.nodes
      → ((a : A) (t : PathState g) → Shape h t.nodes → f a t ≡ k a t)
      → after r f ≡ after r k
  same_after h (t, ok a) f k q same = same a t q
  same_after h (t, err) f k q same = refl
  same_after h (t, panic) f k q same = refl

  -- On a path over the nodes `ns`, ActivateTunnelAndPDR ends: on any fuel above their number, each of its
  -- four loops makes one round at each of them, in order, up to the first that fails, and what it does
  -- is what these passes do in a row.
  pub activate_tunnel_and_pdr-passes :
      (fuel : ℕ) (first : Option ℕ) (prec : ℕ) (ns : List ℕ) (s : PathState g)
      → Along s.nodes first ns
      → length ns < fuel
      → activate_tunnel_and_pdr g e c fuel first prec s ≡ passes first prec ns s
  unfolding activate_tunnel_and_pdr
  activate_tunnel_and_pdr-passes fuel first prec ns s a l =
      rw (along-visit (validate_at g e) fuel first ns s (validate_at-Keeps g e c) a l) (
        same_after s.nodes (visit (validate_at g e) ns s) _ _
          (Shape-visit (validate_at g e) ns s (validate_at-Keeps g e c)) second)
    where
      still : (t : PathState g) → Shape s.nodes t.nodes → Along t.nodes first ns
      still t q = Along-Shape s t first ns q a

      fourth :
          (d : Unit {0}) (t : PathState g)
          → Shape s.nodes t.nodes
          → along g fuel (activate_pdrs_at g e c first prec) first t
            ≡ visit (activate_pdrs_at g e c first prec) ns t
      fourth d t q =
          along-visit (activate_pdrs_at g e c first prec) fuel first ns t
            (activate_pdrs_at-Keeps g e c first prec) (still t q) l

      third :
          (d : Unit {0}) (t : PathState g)
          → Shape s.nodes t.nodes
          → after
              (along g fuel (activate_tunnels_at g e c) first t)
              (λ d. along g fuel (activate_pdrs_at g e c first prec) first)
            ≡ after
                (visit (activate_tunnels_at g e c) ns t)
                (λ d. visit (activate_pdrs_at g e c first prec) ns)
      third d t q =
          rw
            (along-visit (activate_tunnels_at g e c) fuel first ns t
              (activate_tunnels_at-Keeps g e c) (still t q) l)
            (same_after s.nodes (visit (activate_tunnels_at g e c) ns t) _ _
              (Shape-trans q
                (Shape-visit (activate_tunnels_at g e c) ns t (activate_tunnels_at-Keeps g e c)))
              fourth)

      second :
          (d : Unit {0}) (t : PathState g)
          → Shape s.nodes t.nodes
          → after (along g fuel (allocate_seid_at g e) first t) (λ d v.
            after
              (along g fuel (activate_tunnels_at g e c) first v)
              (λ d. along g fuel (activate_pdrs_at g e c first prec) first))
            ≡ after (visit (allocate_seid_at g e) ns t) (λ d v.
              after
                (visit (activate_tunnels_at g e c) ns v)
                (λ d. visit (activate_pdrs_at g e c first prec) ns))
      second d t q =
          rw
            (along-visit (allocate_seid_at g e) fuel first ns t (allocate_seid_at-Keeps g e c)
              (still t q) l)
            (same_after s.nodes (visit (allocate_seid_at g e) ns t) _ _
              (Shape-trans q
                (Shape-visit (allocate_seid_at g e) ns t (allocate_seid_at-Keeps g e c)))
              third)

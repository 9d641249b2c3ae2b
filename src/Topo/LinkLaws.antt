-- ===== src/Topo/LinkLaws.antt =====
-- InsertUPNodeLinks keeps to nodes that were made.
use smf_cdac.Base.{ℕ, ◌<◌, inl, inr}
use smf_cdac.Base.Dict.{lookup}
use smf_cdac.Topo.Types.{Heap}
use smf_cdac.Topo.Fuel.{InPool}
use smf_cdac.Topo.Select.{UserPlane}
use smf_cdac.Topo.Nodes.{LinkConfig}
use smf_cdac.Topo.Links.{add_link, insert_up_node_links}
use smf_cdac.Topo.NodeLaws.{WellFormed, Member-append, InPool-set_node, option_cases, Keeps}

InPool-add_link :
    (pool n m : ℕ) (h : Heap) → InPool pool h → m < pool → InPool pool (add_link n m h)
unfolding add_link
InPool-add_link pool n m h i l =
    InPool-set_node pool n _ h i
      (λ b k. elim (Member-append b m (h n).links k) [ inl j ↦ i n b j | inr e ↦ rw e l ])

pub insert_up_node_links-Keeps :
    (l : LinkConfig) (u : UserPlane) → WellFormed u → Keeps (insert_up_node_links l u)
unfolding insert_up_node_links
insert_up_node_links-Keeps l u f = elim (option_cases (lookup l.a u.up_nodes)) [
  | inl e ↦ rw (insert_up_node_links, e) tt
  | inr (n, e) ↦ elim (option_cases (lookup l.b u.up_nodes)) [
    | inl q ↦ rw (insert_up_node_links, e, q) tt
    | inr (m, q) ↦
        let first = InPool-add_link u.next n m u.heap f.links_lead (f.names_lead l.b m q) in
        rw (insert_up_node_links, e, q)
          (record {
            links_lead =
                InPool-add_link u.next m n (add_link n m u.heap) first (f.names_lead l.a n e);
            names_lead = f.names_lead;
          })
  ]
]

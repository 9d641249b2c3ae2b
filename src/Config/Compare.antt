-- ===== src/Config/Compare.antt =====
-- factory/config.go: the compare functions.
use smf_cdac.Base.{
  ℕ, Bool, true, false, ◌&&◌, ◌||◌, Option, none, some, List, [], ◌∷◌, ◌==◌, if◌then◌else◌,
}
use smf_cdac.Base.Int.{◌==ℤ◌}
use smf_cdac.Base.Text.{Text, text_eq}
use smf_cdac.Base.Dict.{Dict, lookup, insert}
use smf_cdac.Topo.Types.{Snssai, DnnUpfInfoItem, SnssaiUpfInfo}
use smf_cdac.Topo.Nodes.{LinkConfig}

-- SnssaiDnnInfoItem with its DNS, and SnssaiInfoItem with its PlmnId.
pub record SnssaiDnnInfoItem : Type 0 where
  pub dnn : Text
  pub dns_ipv4 : Text
  pub dns_ipv6 : Text
  pub ue_subnet : Text
  pub mtu : ℕ

pub record SnssaiInfoItem : Type 0 where
  pub snssai : Snssai
  pub mcc : Text
  pub mnc : Text
  pub dnn_infos : List SnssaiDnnInfoItem

-- UPNode, in the fields that are compared.
pub record UpNodeConfig : Type 0 where
  pub an_ip : Text
  pub dnn : Text
  pub node_id : Text
  pub node_type : Text
  pub snssai_infos : List SnssaiUpfInfo

-- What a comparison of two lists reports.
pub record Changes {ℓ} (A : Type ℓ) : Type ℓ where
  pub matches : Bool
  pub add : List A
  pub mod_items : List A
  pub del : List A

abbrev is_empty {ℓ} : {A : Type ℓ} → List A → Bool
is_empty [] = true
is_empty (x ∷ xs) = false

-- The inner loop: whether an item is found.
unfoldable pub found_in {ℓ} : {A : Type ℓ} → (A → A → Bool) → A → List A → Bool
found_in same x [] = false
found_in same x (y ∷ ys) = same x y || found_in same x ys

-- One round of the outer loop: the items of the first list that are not in the second.
unfoldable pub not_found {ℓ} : {A : Type ℓ} → (A → A → Bool) → List A → List A → List A
unfolding found_in
not_found same [] ys = []
not_found same (x ∷ xs) ys =
    let rest = not_found same xs ys in if found_in same x ys then rest else x ∷ rest

-- compareGenericSlices.
unfoldable pub compare_generic_slices {ℓ} :
    {A : Type ℓ} → (A → A → Bool) → List A → List A → Changes A
unfolding not_found
compare_generic_slices same xs ys =
    let del = not_found same xs ys in
    let add = not_found same ys xs in
    record { matches = is_empty del && is_empty add; add = add; mod_items = []; del = del }

unfoldable pub compare_ns_dnn : SnssaiDnnInfoItem → SnssaiDnnInfoItem → Bool
unfolding text_eq
compare_ns_dnn a b =
    text_eq a.dnn b.dnn
    && text_eq a.dns_ipv4 b.dns_ipv4
    && text_eq a.dns_ipv6 b.dns_ipv6
    && text_eq a.ue_subnet b.ue_subnet
    && a.mtu == b.mtu

unfoldable pub compare_up_links : LinkConfig → LinkConfig → Bool
unfolding text_eq
compare_up_links k l = text_eq k.a l.a && text_eq k.b l.b

unfoldable pub compare_upf_dnn : DnnUpfInfoItem → DnnUpfInfoItem → Bool
unfolding text_eq
compare_upf_dnn a b = text_eq a.dnn b.dnn

-- The first item with the same S-NSSAI.
unfoldable pub first_same {ℓ} : {A : Type ℓ} → (A → A → Bool) → A → List A → Option A
first_same same x [] = none
first_same same x (y ∷ ys) = if same x y then some y else first_same same x ys

-- The first round of compareNetworkSlices and of compareUPNetworkSlices: the new items that differ.
unfoldable pub changed {ℓ} :
    {A : Type ℓ} → (A → A → Bool) → (A → A → Bool) → List A → List A → List A
unfolding first_same
changed same equal [] ys = []
changed same equal (x ∷ xs) ys =
    let rest = changed same equal xs ys in
    elim (first_same same x ys) [ none ↦ rest | some y ↦ if equal x y then rest else y ∷ rest ]

unfoldable pub compare_slices {ℓ} :
    {A : Type ℓ} → (A → A → Bool) → (A → A → Bool) → List A → List A → Changes A
unfolding not_found changed
compare_slices same equal xs ys =
    let del = not_found same xs ys in
    let add = not_found same ys xs in
    let altered = changed same equal xs ys in
    record {
      matches = is_empty del && is_empty altered && is_empty add;
      add = add;
      mod_items = altered;
      del = del;
    }

abbrev same_snssai : Snssai → Snssai → Bool
same_snssai s t = text_eq s.sd t.sd && s.sst ==ℤ t.sst

-- compareNetworkSliceInstance, behind its test of the S-NSSAI.
unfoldable pub compare_network_slice_instance : SnssaiInfoItem → SnssaiInfoItem → Bool
unfolding compare_generic_slices compare_ns_dnn
compare_network_slice_instance s t =
    (compare_generic_slices compare_ns_dnn s.dnn_infos t.dnn_infos).matches
    && text_eq s.mcc t.mcc
    && text_eq s.mnc t.mnc

unfoldable pub compare_network_slices :
    List SnssaiInfoItem → List SnssaiInfoItem → Changes SnssaiInfoItem
unfolding compare_slices compare_network_slice_instance
compare_network_slices xs ys =
    compare_slices (λ s t. same_snssai s.snssai t.snssai) compare_network_slice_instance xs ys

unfoldable pub compare_up_network_slices :
    List SnssaiUpfInfo → List SnssaiUpfInfo → Changes SnssaiUpfInfo
unfolding compare_slices compare_generic_slices compare_upf_dnn
compare_up_network_slices xs ys =
    compare_slices (λ s t. same_snssai s.snssai t.snssai)
      (λ s t. (compare_generic_slices compare_upf_dnn s.dnn_list t.dnn_list).matches) xs ys

-- compareUPNode.
unfoldable pub compare_up_node : UpNodeConfig → UpNodeConfig → Bool
unfolding compare_up_network_slices text_eq
compare_up_node a b =
    text_eq a.an_ip b.an_ip
    && text_eq a.dnn b.dnn
    && text_eq a.node_id b.node_id
    && text_eq a.node_type b.node_type
    && (compare_up_network_slices a.snssai_infos b.snssai_infos).matches

-- The loops of compareUPNodesConfigs.
unfoldable pub modified_nodes : Dict UpNodeConfig → Dict UpNodeConfig → Dict UpNodeConfig
unfolding lookup insert compare_up_node
modified_nodes [] new = []
modified_nodes ((name, x) ∷ old) new =
    let rest = modified_nodes old new in
    elim (lookup name new) [
      | none ↦ rest
      | some y ↦ if compare_up_node x y then rest else insert name y rest
    ]

unfoldable pub absent_nodes : Dict UpNodeConfig → Dict UpNodeConfig → Dict UpNodeConfig
unfolding lookup insert
absent_nodes [] other = []
absent_nodes ((name, x) ∷ nodes) other =
    let rest = absent_nodes nodes other in
    elim (lookup name other) [ none ↦ insert name x rest | some y ↦ rest ]

-- compareUPNodesConfigs: what to add, to modify and to delete.
pub record NodeChanges : Type 0 where
  pub matches : Bool
  pub add : Dict UpNodeConfig
  pub mod_nodes : Dict UpNodeConfig
  pub del : Dict UpNodeConfig

unfoldable pub compare_up_nodes_configs : Dict UpNodeConfig → Dict UpNodeConfig → NodeChanges
unfolding modified_nodes absent_nodes
compare_up_nodes_configs old new =
    let add = absent_nodes new old in
    let altered = modified_nodes old new in
    let del = absent_nodes old new in
    record {
      matches = is_empty altered && is_empty del && is_empty add;
      add = add;
      mod_nodes = altered;
      del = del;
    }

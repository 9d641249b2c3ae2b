-- ===== src/Topo/Types.antt =====
-- context/user_plane_information.go, context/snssai.go, context/upf.go: nodes of the user plane, what a
-- UPF offers, and what a session asks for. A *UPNode is the number of its place on the heap.
use smf_cdac.Base.{ℕ, Bool, true, false, ◌&&◌, ◌||◌, Option, none, some, List, [], ◌∷◌}
use smf_cdac.Base.Int.{ℤ, ◌==ℤ◌}
use smf_cdac.Base.Text.{Text, text_eq}

pub record Snssai : Type 0 where
  pub sd : Text
  pub sst : ℤ

-- SNssai.Equal.
unfoldable pub snssai_equal : Snssai → Snssai → Bool
snssai_equal s t = (s.sst ==ℤ t.sst) && text_eq s.sd t.sd

pub record DnnUpfInfoItem : Type 0 where
  pub dnn : Text
  pub dnai_list : List Text

pub record SnssaiUpfInfo : Type 0 where
  pub snssai : Snssai
  pub dnn_list : List DnnUpfInfoItem

unfoldable pub has_text : Text → List Text → Bool
has_text t [] = false
has_text t (u ∷ us) = text_eq u t || has_text t us

-- ContainsDNAI.
unfoldable pub contains_dnai : DnnUpfInfoItem → Text → Bool
unfolding has_text
contains_dnai d [] = elim d.dnai_list [ [] ↦ true | x ∷ xs ↦ false ]
contains_dnai d (c ∷ cs) = has_text (c ∷ cs) d.dnai_list

pub data UpNodeType : Type 0 where
  an upf other : UpNodeType

-- NodeID: its type (0 IPv4, 1 IPv6, 2 FQDN) and its bytes.
pub record NodeId : Type 0 where
  pub node_id_value : List ℕ
  pub node_id_type : ℕ

-- The part of a UPF that the topology reads; `uuid` is drawn when it is made.
pub record UpfInfo : Type 0 where
  pub uuid : Text
  pub snssai_infos : List SnssaiUpfInfo

-- UPNode; the UPF of an access network is nil.
pub record UpNode : Type 0 where
  pub upf_info : Option UpfInfo
  pub node_type : UpNodeType
  pub node_id : NodeId
  pub links : List ℕ

abbrev pub Heap : Type 0
Heap = ℕ → UpNode

-- UPFSelectionParams.
pub record UpfSelectionParams : Type 0 where
  pub dnn_list : List Text
  pub snssai : Snssai
  pub dnai : Text

unfoldable pub any_snssai : Snssai → List SnssaiUpfInfo → Bool
any_snssai s [] = false
any_snssai s (i ∷ is) = snssai_equal i.snssai s || any_snssai s is

-- isSupportSnssai, where `none` is the panic on a nil UPF.
unfoldable pub is_support_snssai : Option UpfInfo → Snssai → Option Bool
unfolding any_snssai snssai_equal
is_support_snssai none s = none
is_support_snssai (some u) s = some (any_snssai s u.snssai_infos)

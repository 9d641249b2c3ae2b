-- ===== src/Qos/Changes.antt =====
-- The tests for a change of qos/pcc_rule.go, qos/qos_flow.go and qos/traffic_control_data.go, on
-- pointers that are not nil. Go's `==` on structs of the PCF's models is a parameter.
use smf_cdac.Base.{Bool, true, false, not, ◌&&◌, ◌||◌, Option, none, some, List, [], ◌∷◌}
use smf_cdac.Base.Int.{ℤ, ◌==ℤ◌}
use smf_cdac.Base.Text.{Text, text_eq}
use smf_cdac.Qos.Types.{FlowInformation, PccRule, Arp, QosData}

abbrev pub bool_eq : Bool → Bool → Bool
bool_eq true b = b
bool_eq false b = not b

-- Two lists of one length that agree at every index.
unfoldable pub lists_equal {ℓ} : {A : Type ℓ} → (A → A → Bool) → List A → List A → Bool
lists_equal same [] [] = true
lists_equal same [] (b ∷ bs) = false
lists_equal same (a ∷ us) [] = false
lists_equal same (a ∷ us) (b ∷ bs) = same a b && lists_equal same us bs

-- stringSlicesEqual.
unfoldable pub string_slices_equal : List Text → List Text → Bool
unfolding lists_equal
string_slices_equal a b = lists_equal text_eq a b

-- GetPccRuleChanges.
unfoldable pub get_pcc_rule_changes :
    (FlowInformation → FlowInformation → Bool) → PccRule → PccRule → Bool
unfolding string_slices_equal lists_equal
get_pcc_rule_changes same_flow s d =
    not (text_eq s.pcc_rule_id d.pcc_rule_id)
    || not (text_eq s.app_id d.app_id)
    || not (s.cont_ver ==ℤ d.cont_ver)
    || not (s.precedence ==ℤ d.precedence)
    || not (text_eq s.af_sig_protocol d.af_sig_protocol)
    || not (bool_eq s.app_reloc d.app_reloc)
    || not (text_eq s.ref_cond_data d.ref_cond_data)
    || not (string_slices_equal s.ref_qos_data d.ref_qos_data)
    || not (string_slices_equal s.ref_tc_data d.ref_tc_data)
    || not (string_slices_equal s.ref_chg_data d.ref_chg_data)
    || not (string_slices_equal s.ref_um_data d.ref_um_data)
    || not (lists_equal same_flow s.flow_infos d.flow_infos)

-- The comparison of the ARP.
abbrev pub arp_changes : Option Arp → Option Arp → Bool
arp_changes none none = false
arp_changes none (some b) = true
arp_changes (some a) none = true
arp_changes (some a) (some b) =
    not (a.priority_level ==ℤ b.priority_level)
    || not (text_eq a.preempt_cap b.preempt_cap)
    || not (text_eq a.preempt_vuln b.preempt_vuln)

-- GetQosDataChanges.
unfoldable pub get_qos_data_changes : QosData → QosData → Bool
get_qos_data_changes s d =
    not (text_eq s.qos_id d.qos_id)
    || not (s.var_5qi ==ℤ d.var_5qi)
    || not (text_eq s.maxbr_ul d.maxbr_ul)
    || not (text_eq s.maxbr_dl d.maxbr_dl)
    || not (text_eq s.gbr_ul d.gbr_ul)
    || not (text_eq s.gbr_dl d.gbr_dl)
    || not (bool_eq s.qnc d.qnc)
    || not (s.qos_priority_level ==ℤ d.qos_priority_level)
    || not (s.aver_window ==ℤ d.aver_window)
    || not (s.max_data_burst_vol ==ℤ d.max_data_burst_vol)
    || not (bool_eq s.reflective_qos d.reflective_qos)
    || not (text_eq s.sharing_key_dl d.sharing_key_dl)
    || not (text_eq s.sharing_key_ul d.sharing_key_ul)
    || not (s.max_packet_loss_rate_dl ==ℤ d.max_packet_loss_rate_dl)
    || not (s.max_packet_loss_rate_ul ==ℤ d.max_packet_loss_rate_ul)
    || not (bool_eq s.def_qos_flow_indication d.def_qos_flow_indication)
    || arp_changes s.arp d.arp

-- models.TrafficControlData, and what it points to.
pub record RedirectInformation : Type 0 where
  pub redirect_enabled : Bool
  pub redirect_address_type : Text
  pub redirect_server_address : Text

pub record RouteInformation : Type 0 where
  pub ipv4_addr : Text
  pub ipv6_addr : Text
  pub port_number : ℤ

pub record RouteToLocation : Type 0 where
  pub dnai : Text
  pub route_prof_id : Text
  pub route_info : Option RouteInformation

pub record UpPathChgEvent : Type 0 where
  pub notification_uri : Text
  pub notif_corre_id : Text
  pub dnai_chg_type : Text

pub record TrafficControlData : Type 0 where
  pub tc_id : Text
  pub flow_status : Text
  pub mute_notif : Bool
  pub traffic_steering_pol_id_dl : Text
  pub traffic_steering_pol_id_ul : Text
  pub redirect_info : Option RedirectInformation
  pub route_to_locs : List RouteToLocation
  pub up_path_chg_event : Option UpPathChgEvent

-- Two pointers agree if both are nil, or neither is and what they point to agrees.
abbrev pub pointers_equal {ℓ} : {A : Type ℓ} → (A → A → Bool) → Option A → Option A → Bool
pointers_equal same none none = true
pointers_equal same none (some b) = false
pointers_equal same (some a) none = false
pointers_equal same (some a) (some b) = same a b

unfoldable pub compare_redirect_info :
    Option RedirectInformation → Option RedirectInformation → Bool
compare_redirect_info = pointers_equal λ a b.
    bool_eq a.redirect_enabled b.redirect_enabled
    && text_eq a.redirect_address_type b.redirect_address_type
    && text_eq a.redirect_server_address b.redirect_server_address

unfoldable pub compare_route_information : Option RouteInformation → Option RouteInformation → Bool
compare_route_information = pointers_equal λ a b.
    text_eq a.ipv4_addr b.ipv4_addr
    && text_eq a.ipv6_addr b.ipv6_addr
    && (a.port_number ==ℤ b.port_number)

unfoldable pub compare_route_to_locations : List RouteToLocation → List RouteToLocation → Bool
unfolding lists_equal compare_route_information
compare_route_to_locations = lists_equal λ a b.
    text_eq a.dnai b.dnai
    && text_eq a.route_prof_id b.route_prof_id
    && compare_route_information a.route_info b.route_info

unfoldable pub compare_up_path_chg_event : Option UpPathChgEvent → Option UpPathChgEvent → Bool
compare_up_path_chg_event = pointers_equal λ a b.
    text_eq a.notification_uri b.notification_uri
    && text_eq a.notif_corre_id b.notif_corre_id
    && text_eq a.dnai_chg_type b.dnai_chg_type

-- GetTCDataChanges.
unfoldable pub get_tc_data_changes : TrafficControlData → TrafficControlData → Bool
unfolding compare_redirect_info compare_route_to_locations compare_up_path_chg_event
get_tc_data_changes s d =
    not (text_eq s.tc_id d.tc_id)
    || not (text_eq s.flow_status d.flow_status)
    || not (bool_eq s.mute_notif d.mute_notif)
    || not (text_eq s.traffic_steering_pol_id_dl d.traffic_steering_pol_id_dl)
    || not (text_eq s.traffic_steering_pol_id_ul d.traffic_steering_pol_id_ul)
    || not (compare_redirect_info s.redirect_info d.redirect_info)
    || not (compare_route_to_locations s.route_to_locs d.route_to_locs)
    || not (compare_up_path_chg_event s.up_path_chg_event d.up_path_chg_event)

-- ===== src/Pfcp/Requests.antt =====
-- pfcp/message/build.go: BuildPfcpSessionEstablishmentRequest, BuildPfcpSessionModificationRequest and
-- BuildPfcpSessionDeletionRequest.
use smf_cdac.Base.{
  ℕ, Option, none, some, List, [], ◌∷◌, ◌++◌, ◌==◌, if◌then◌else◌, Outcome, ok, panic, ◌>>=◌,
}
use smf_cdac.Upf.Types.{RuleState, rule_initial, rule_create, rule_update, rule_remove}
use smf_cdac.Upf.Rules.{Far, Qer, Pdr}
use smf_cdac.Paths.Tunnels.{PfcpSession}
use smf_cdac.Pfcp.Messages.{
  PdrIe, FarIe, QerIe, pdr_ie, far_to_create_far, far_to_update_far, qer_to_create_qer,
}

-- The State fields of the rules of a UPF, by their ids.
abbrev pub States : Type 0
States = ℕ → RuleState

pub record RuleStates : Type 0 where
  pub pdr : States
  pub far : States
  pub qer : States

-- The IEs of a request that are about rules.
pub data Item : Type 0 where
  create_pdr update_pdr : PdrIe → Item
  create_far update_far : FarIe → Item
  create_qer : QerIe → Item
  remove_pdr remove_far remove_qer : ℕ → Item

-- A session request; the node ID and the PDN type of an establishment are constants.
pub record SessionRequest : Type 0 where
  pub sequence_number : ℕ
  pub local_seid : ℕ
  pub remote_seid : ℕ
  pub items : List Item

abbrev pub set_state : ℕ → RuleState → States → States
set_state n r st m = if m == n then r else st m

-- A loop over rules: what each adds to the request by its state, which is RULE_CREATE from then on. A
-- nil rule is a panic.
unfoldable pub each_rule :
    {A : Type 0}
    → (A → ℕ)
    → (A → RuleState → List Item)
    → List (Option A)
    → States
    → Outcome (List Item × States)
each_rule id items [] st = ok ([], st)
each_rule id items (none ∷ more) st = panic
each_rule id items (some a ∷ more) st =
    each_rule id items more (set_state (id a) rule_create st) >>= λ r.
    ok (items a (st (id a)) ++ r.0, r.1)

abbrev pub far_of : Far → ℕ
far_of f = f.far_id

abbrev pub qer_of : Qer → ℕ
qer_of q = q.qer_id

abbrev pub pdr_of : Pdr → ℕ
pdr_of p = p.pdr_id

-- What is sent of a rule in an establishment, and in a modification.
abbrev pub initial_only : {A : Type 0} → (A → Item) → A → RuleState → List Item
initial_only item a rule_initial = item a ∷ []
initial_only item a _ = []

abbrev pub new_far_item : Far → RuleState → List Item
new_far_item = initial_only (λ f. create_far (far_to_create_far f))

abbrev pub qer_item : Qer → RuleState → List Item
qer_item = initial_only (λ q. create_qer (qer_to_create_qer q))

abbrev pub pdr_item : Pdr → RuleState → List Item
pdr_item p rule_initial = create_pdr (pdr_ie p) ∷ []
pdr_item p rule_update = update_pdr (pdr_ie p) ∷ []
pdr_item p rule_remove = remove_pdr p.pdr_id ∷ []
pdr_item p rule_create = []

abbrev pub far_item : Far → RuleState → List Item
far_item f rule_initial = create_far (far_to_create_far f) ∷ []
far_item f rule_update = update_far (far_to_update_far f) ∷ []
far_item f rule_remove = remove_far f.far_id ∷ []
far_item f rule_create = []

-- The PDRs of an establishment, whose states stay.
unfoldable pub new_pdrs : List Pdr → States → List Item
new_pdrs [] st = []
new_pdrs (p ∷ pdrs) st =
    initial_only (λ q. create_pdr (pdr_ie q)) p (st p.pdr_id) ++ new_pdrs pdrs st

-- qerMap: one QER for each id, the last.
unfoldable pub put_qer : Qer → List (Option Qer) → List (Option Qer)
put_qer q [] = some q ∷ []
put_qer q (none ∷ qs) = none ∷ put_qer q qs
put_qer q (some r ∷ qs) = if r.qer_id == q.qer_id then some q ∷ qs else some r ∷ put_qer q qs

unfoldable pub qer_map : List (Option Qer) → List (Option Qer) → Outcome (List (Option Qer))
unfolding put_qer
qer_map [] m = ok m
qer_map (none ∷ qs) m = panic
qer_map (some q ∷ qs) m = qer_map qs (put_qer q m)

-- BuildPfcpSessionEstablishmentRequest.
unfoldable pub build_pfcp_session_establishment_request :
    ℕ
    → ℕ
    → List Pdr
    → List (Option Far)
    → List (Option Qer)
    → RuleStates
    → Outcome (SessionRequest × RuleStates)
unfolding new_pdrs each_rule qer_map
build_pfcp_session_establishment_request seq local_seid pdrs fars qers st = do
  f ← each_rule far_of new_far_item fars st.far
  m ← qer_map qers []
  q ← each_rule qer_of qer_item m st.qer
  ok (
    record {
      sequence_number = seq;
      local_seid = local_seid;
      remote_seid = 0;
      items = new_pdrs pdrs st.pdr ++ (f.0 ++ q.0);
    },
    record { pdr = st.pdr; far = f.1; qer = q.1 },
  )

abbrev pub some_of : {A : Type 0} → List A → List (Option A)
some_of [] = []
some_of (a ∷ more) = some a ∷ some_of more

-- A FAR that is updated loses its PFCPSMReqFlags.
abbrev flags_reset : RuleState → Far → Far
flags_reset rule_update f = record f {
  forwarding_parameters = elim f.forwarding_parameters [
    | none ↦ none
    | some p ↦ some (record p { pfcpsm_req_flags = none })
  ];
}
flags_reset _ f = f

unfoldable pub fars_behind : List (Option Far) → States → List (Option Far)
fars_behind [] st = []
fars_behind (none ∷ fars) st = none ∷ fars_behind fars st
fars_behind (some f ∷ fars) st =
    some (flags_reset (st f.far_id) f) ∷ fars_behind fars (set_state f.far_id rule_create st)

unfoldable pub removals : {A : Type 0} → (A → Item) → List A → List Item
removals item [] = []
removals item (a ∷ more) = item a ∷ removals item more

-- BuildPfcpSessionModificationRequest: the request, and the states and the FARs behind it.
unfoldable pub build_pfcp_session_modification_request :
    ℕ
    → PfcpSession
    → List Pdr
    → List (Option Far)
    → List (Option Qer)
    → List Pdr
    → List Far
    → List Qer
    → RuleStates
    → Outcome (SessionRequest × RuleStates × List (Option Far))
unfolding each_rule fars_behind removals
build_pfcp_session_modification_request seq c pdrs fars qers gone_pdrs gone_fars gone_qers st = do
  p ← each_rule pdr_of pdr_item (some_of pdrs) st.pdr
  f ← each_rule far_of far_item fars st.far
  q ← each_rule qer_of qer_item qers st.qer
  ok (
    record {
      sequence_number = seq;
      local_seid = c.local_seid;
      remote_seid = c.remote_seid;
      items =
          (p.0 ++ (f.0 ++ q.0))
          ++ (removals (λ x. remove_pdr (pdr_of x)) gone_pdrs
              ++ (removals (λ x. remove_far (far_of x)) gone_fars
                  ++ removals (λ x. remove_qer (qer_of x)) gone_qers));
    },
    record { pdr = p.1; far = f.1; qer = q.1 },
    fars_behind fars st.far,
  )

-- BuildPfcpSessionDeletionRequest.
unfoldable pub build_pfcp_session_deletion_request : ℕ → PfcpSession → SessionRequest
build_pfcp_session_deletion_request seq c = record {
  sequence_number = seq;
  local_seid = c.local_seid;
  remote_seid = c.remote_seid;
  items = [];
}

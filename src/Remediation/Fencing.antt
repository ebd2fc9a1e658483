-- ===== src/Remediation/Fencing.antt =====
-- The evidence for a deletion: which nodes are fenced, which are unhealthy, and to which node a local
-- volume is pinned (podremediator_controller.go and safety_helpers.go of
-- internal/controller/remediation).
use infra_operator.Base.{
  ℕ, suc, String, Bool, false, ◌&&◌, ◌||◌, not, Option, none, some, List, [], ◌∷◌, ◌==◌, string_eq,
  nat_eq, ltb, length, contains, if◌then◌else◌,
}
use infra_operator.Base.StringMap.{get}
use infra_operator.Remediation.Objects.{Node, NodeCondition, Snr, Pv, Term, Expression, is_nil}

abbrev pub snr_node_name_key : String
snr_node_name_key = "remediation.medik8s.io/node-name"

unfoldable pub snr_node_name : Option Snr → String
snr_node_name none = ""
snr_node_name (some snr) =
    if not (get snr.annotations snr_node_name_key == "")
    then get snr.annotations snr_node_name_key
    else if not (get snr.labels snr_node_name_key == "")
    then get snr.labels snr_node_name_key
    else snr.name

unfoldable pub fencing_matches_node : Option Snr → Option Node → Bool
fencing_matches_node none n = false
fencing_matches_node (some snr) none = false
fencing_matches_node (some snr) (some node) =
    if not (is_nil snr.deletion_timestamp)
    then false
    else if not (snr_node_name (some snr) == node.name) || node.uid == ""
    then false
    else snr.creation_timestamp == 0 || not (ltb snr.creation_timestamp node.creation_timestamp)

-- `isNodeUnhealthy`: the first Ready condition decides.
any_not_ready : List NodeCondition → Bool
any_not_ready [] = false
any_not_ready (c ∷ cs) = if c.kind == "Ready" then not (c.status == "True") else any_not_ready cs

unfoldable pub is_node_unhealthy : Node → Bool
unfolding any_not_ready
is_node_unhealthy n = any_not_ready n.conditions

-- The maps of `getNodesWithFencedSNR`: how many active SNRs a node has, and a completed one.
pub record FencedScan : Type 0 where
  pub active : String → ℕ
  pub fenced : String → Option Snr

unfoldable pub is_completed : Snr → Bool
is_completed snr = elim snr.phase [
  | none ↦ false
  | some phase ↦
      not (snr.uid == "") && (phase == "Reboot-Completed" || phase == "Fencing-Completed")
]

unfoldable pub scan_snr : Snr → FencedScan → FencedScan
scan_snr snr acc =
    let node = snr_node_name (some snr) in
    if not (is_nil snr.deletion_timestamp) then acc else if node == "" then acc else record {
      active = λ k. if node == k then suc (acc.active k) else acc.active k;
      fenced = λ k. if is_completed snr && node == k then some snr else acc.fenced k;
    }

unfoldable pub scan_snrs : List Snr → FencedScan → FencedScan
scan_snrs [] acc = acc
scan_snrs (snr ∷ snrs) acc = scan_snrs snrs (scan_snr snr acc)

-- The loop over `active` deletes the nodes with more than one.
unfoldable pub fenced_nodes : List Snr → String → Option Snr
fenced_nodes snrs node =
    let scan = scan_snrs snrs (record { active = λ k. 0; fenced = λ k. none }) in
    if ltb 1 (scan.active node) then none else scan.fenced node

abbrev pub hostname_label : String
hostname_label = "kubernetes.io/hostname"

abbrev pub local_pv_node_topology_keys : List String
local_pv_node_topology_keys =
    hostname_label ∷ "topology.topolvm.io/node" ∷ "topology.lvms.io/node" ∷ []

unfoldable pub pv_has_local_node_affinity : Pv → Bool
pv_has_local_node_affinity pv =
    if not pv.has_local && not pv.has_csi && not pv.has_host_path
    then false
    else not (is_nil pv.required_terms)

abbrev pub terms : Pv → List Term
terms pv = elim pv.required_terms [ none ↦ [] | some ts ↦ ts ]

unfoldable pub is_local_pv_node_topology_key : String → Bool
is_local_pv_node_topology_key key = contains local_pv_node_topology_keys key

matching_nodes : String → String → List Node → List String
matching_nodes key value [] = []
matching_nodes key value (n ∷ ns) =
    let rest = matching_nodes key value ns in
    if get n.labels key == value then n.name ∷ rest else rest

named_node : String → List Node → String
named_node value [] = ""
named_node value (n ∷ ns) = if n.name == value then n.name else named_node value ns

unfoldable pub resolve_pv_topology_requirement : String → String → List Node → String
unfolding matching_nodes named_node
resolve_pv_topology_requirement key value nodes = elim (matching_nodes key value nodes) [
  | [] ↦ if key == hostname_label then "" else named_node value nodes
  | n ∷ [] ↦ n
  | n ∷ m ∷ ns ↦ ""
]

abbrev sole : List String → Option String
sole [] = none
sole (v ∷ []) = if v == "" then none else some v
sole (v ∷ w ∷ vs) = none

-- `expression.Operator != In || len(expression.Values) != 1 || expression.Values[0] == ""`, turned
-- round: the one value that is asked for.
unfoldable pub sole_value : Expression → Option String
sole_value e = if not (e.operator == "In") then none else sole e.values

-- The loop over a term's expressions: `none` where the function returns "".
unfoldable pub resolve_expressions : List Node → List Expression → String → ℕ → Option (String × ℕ)
resolve_expressions nodes [] term_node count = some (term_node, count)
resolve_expressions nodes (e ∷ es) term_node count =
    if not (is_local_pv_node_topology_key e.key) then none else elim (sole_value e) [
      | none ↦ none
      | some value ↦
          let node = resolve_pv_topology_requirement e.key value nodes in
          let rest = resolve_expressions nodes es node (suc count) in
          if node == "" || (not (term_node == "") && not (term_node == node)) then none else rest
    ]

unfoldable pub resolve_terms : List Node → List Term → String → String
resolve_terms nodes [] resolved = resolved
resolve_terms nodes (t ∷ ts) resolved =
    if not (length t.match_fields == 0)
    then ""
    else elim (resolve_expressions nodes t.match_expressions "" 0) [
      | none ↦ ""
      | some (node, count) ↦
          let rest = resolve_terms nodes ts node in
          if count == 0 || node == "" || (not (resolved == "") && not (resolved == node))
          then ""
          else rest
    ]

unfoldable pub resolve_local_pv_node_name : Pv → List Node → String
unfolding resolve_terms
resolve_local_pv_node_name pv nodes =
    if not (pv_has_local_node_affinity pv) then "" else resolve_terms nodes (terms pv) ""

-- `getDirectLocalPVNodeName`: the loop over the terms, with the name so far.
direct_value : String → Expression → Option String
direct_value name e =
    if not (e.key == "topology.topolvm.io/node") && not (e.key == "topology.lvms.io/node")
    then none
    else elim (sole_value e) [
      | none ↦ none
      | some v ↦ if not (name == "") && not (name == v) then none else some v
    ]

unfoldable pub direct_terms : List Term → String → String
unfolding direct_value
direct_terms [] name = name
direct_terms (t ∷ ts) name =
    if not (length t.match_fields == 0) then "" else elim t.match_expressions [
      | [] ↦ ""
      | e ∷ [] ↦ elim (direct_value name e) [ none ↦ "" | some v ↦ direct_terms ts v ]
      | e ∷ d ∷ es ↦ ""
    ]

unfoldable pub get_direct_local_pv_node_name : Pv → String
unfolding direct_terms
get_direct_local_pv_node_name pv =
    if not (pv_has_local_node_affinity pv) then "" else direct_terms (terms pv) ""

-- ===== src/Remediation/Evidence.antt =====
-- Which evidence the fencing tests demand (getNodesWithFencedSNR of podremediator_controller.go and
-- deletionFencingCurrent of safety_helpers.go, internal/controller/remediation).
use infra_operator.Base.{
  ℕ, suc, ◌≤◌, ◌+◌, String, ◌≡◌, ◌⊎◌, inl, inr, Bool, true, not, ◌&&◌, none, some, List, [], ◌∷◌,
  arith, ◌==◌, string_eq, nat_eq, if◌then◌else◌,
}
use infra_operator.Remediation.Objects.{Snr, is_nil}
use infra_operator.Remediation.Fencing.{
  FencedScan, scan_snr, scan_snrs, fenced_nodes, snr_node_name, is_completed,
}

-- A SelfNodeRemediation that is not being deleted and names the node.
unfoldable pub is_active_for : String → Snr → Bool
is_active_for node snr =
    is_nil snr.deletion_timestamp
    && not (snr_node_name (some snr) == "")
    && snr_node_name (some snr) == node

unfoldable pub count_active : String → List Snr → ℕ
count_active node [] = 0
count_active node (s ∷ ss) =
    let rest = count_active node ss in if is_active_for node s then suc rest else rest

scan_snr-active :
    (node : String) (s : Snr) (acc : FencedScan)
    → (scan_snr s acc).active node
      ≡ (if is_active_for node s then suc (acc.active node) else acc.active node)
unfolding scan_snr is_active_for
scan_snr-active node s acc = ground arith

scan_snrs-active :
    (node : String) (ss : List Snr) (acc : FencedScan)
    → (scan_snrs ss acc).active node ≡ acc.active node + count_active node ss
unfolding scan_snrs count_active
scan_snrs-active node [] acc = omega arith
scan_snrs-active node (s ∷ ss) acc =
    ground (arith, scan_snrs-active node ss (scan_snr s acc), scan_snr-active node s acc)

-- The SNR is in the list.
abbrev pub IsListed : Snr → List Snr → Type 0
IsListed t [] = ⊥
IsListed t (s ∷ ss) = (s ≡ t) ⊎ IsListed t ss

-- The SNR stands for a completed fencing of the node.
abbrev pub IsEvidence : String → Snr → Type 0
IsEvidence node t = (is_active_for node t ≡ true) × (is_completed t ≡ true)

scan_snr-fenced :
    (node : String) (s t : Snr) (acc : FencedScan)
    → (scan_snr s acc).fenced node ≡ some t
    → (acc.fenced node ≡ some t) ⊎ ((s ≡ t) × IsEvidence node t)
unfolding scan_snr is_active_for
scan_snr-fenced node s t acc h = ground arith

scan_snrs-fenced :
    (node : String) (ss : List Snr) (t : Snr) (acc : FencedScan)
    → (scan_snrs ss acc).fenced node ≡ some t
    → (acc.fenced node ≡ some t) ⊎ (IsListed t ss × IsEvidence node t)
unfolding scan_snrs
scan_snrs-fenced node [] t acc h = inl h
scan_snrs-fenced node (s ∷ ss) t acc h = elim (scan_snrs-fenced node ss t (scan_snr s acc) h) [
  | inr (m, e) ↦ inr (inr m, e)
  | inl e ↦ elim (scan_snr-fenced node s t acc e) [
    | inl a ↦ inl a
    | inr (same, ev) ↦ inr (inl same, ev)
  ]
]

count_active-pos :
    (node : String) (ss : List Snr) (t : Snr)
    → IsListed t ss
    → is_active_for node t ≡ true
    → 1 ≤ count_active node ss
unfolding count_active
count_active-pos node [] t m h = elim m [ ]
count_active-pos node (s ∷ ss) t (inl same) h = ground (arith, same)
count_active-pos node (s ∷ ss) t (inr m) h = ground (arith, count_active-pos node ss t m h)

-- A node counts as fenced only by an SNR of the list that is not being deleted, names the node and
-- has completed the reboot, and only if no other such SNR of the list names the node.
pub fenced_nodes_sound :
    (snrs : List Snr) (node : String) (t : Snr)
    → fenced_nodes snrs node ≡ some t
    → IsListed t snrs × IsEvidence node t × (count_active node snrs ≡ 1)
unfolding fenced_nodes
fenced_nodes_sound snrs node t h =
    let start : FencedScan = record { active = λ k. 0; fenced = λ k. none } in
    let sums : (scan_snrs snrs start).active node ≡ 0 + count_active node snrs =
      scan_snrs-active node snrs start in
    elim (scan_snrs-fenced node snrs t start (ground arith)) [
      | inl absurd ↦ ground arith
      | inr (m, (active, done)) ↦
          let pos = count_active-pos node snrs t m active in (m, (active, done), ground arith)
    ]

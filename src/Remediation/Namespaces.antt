-- ===== src/Remediation/Namespaces.antt =====
-- Which namespaces a PodRemediator watches (podremediator_controller.go of
-- internal/controller/remediation).
use infra_operator.Base.{
  String, ◌≡◌, inl, inr, refl, Bool, true, false, List, [], ◌∷◌, ◌==◌, string_eq, ◌||◌, not, ◌&&◌,
  contains, any, if◌then◌else◌, arith, Bool-cases,
}
use infra_operator.Remediation.Objects.{PodRemediator}

-- The loop of `podRemediatorNamespaces`, with the namespaces seen so far.
unfoldable pub distinct : List String → List String → List String
distinct seen [] = []
distinct seen (n ∷ ns) =
    let rest = distinct seen ns in
    let kept = distinct (n ∷ seen) ns in if n == "" || contains seen n then rest else n ∷ kept

abbrev or_own : String → List String → List String
or_own own [] = own ∷ []
or_own own (n ∷ ns) = n ∷ ns

unfoldable pub pod_remediator_namespaces : PodRemediator → List String
pod_remediator_namespaces r = or_own r.namespace (distinct [] r.namespaces)

unfoldable pub pod_remediator_watches_namespace : PodRemediator → String → Bool
pod_remediator_watches_namespace r n = contains (pod_remediator_namespaces r) n

contains-distinct :
    (seen ns : List String) (n : String)
    → contains (distinct seen ns) n ≡ (not (n == "") && not (contains seen n) && contains ns n)
unfolding distinct
contains-distinct seen [] n = ground arith
contains-distinct seen (m ∷ ns) n =
    ground (arith, contains-distinct seen ns n, contains-distinct (m ∷ seen) ns n)

-- No element stands twice.
abbrev pub IsDistinct : List String → Type 0
IsDistinct [] = Unit
IsDistinct (n ∷ ns) = (contains ns n ≡ false) × IsDistinct ns

distinct-IsDistinct : (seen ns : List String) → IsDistinct (distinct seen ns)
unfolding distinct
distinct-IsDistinct seen [] = tt
distinct-IsDistinct seen (n ∷ ns) = elim (Bool-cases (n == "" || contains seen n)) [
  | inl skip ↦ rw (skip, distinct) (distinct-IsDistinct seen ns)
  | inr keep ↦
      rw (keep, distinct)
        (ground (arith, contains-distinct (n ∷ seen) ns n), distinct-IsDistinct (n ∷ seen) ns)
]

abbrev is_empty : List String → Bool
is_empty [] = true
is_empty (n ∷ ns) = false

-- Some name is not empty.
abbrev pub has_named : List String → Bool
has_named ns = any (λ n. not (n == "")) ns

is_empty-distinct : (ns : List String) → is_empty (distinct [] ns) ≡ not (has_named ns)
unfolding distinct
is_empty-distinct [] = refl
is_empty-distinct (n ∷ ns) = ground (arith, is_empty-distinct ns)

contains-or_own :
    (own : String) (ns : List String) (n : String)
    → contains (or_own own ns) n ≡ (if is_empty ns then own == n else contains ns n)
contains-or_own own [] n = ground arith
contains-or_own own (m ∷ ns) n = refl

IsDistinct-or_own : (own : String) (ns : List String) → IsDistinct ns → IsDistinct (or_own own ns)
IsDistinct-or_own own [] d = (refl, tt)
IsDistinct-or_own own (m ∷ ns) d = d

-- A PodRemediator watches the namespaces that its list names, the empty name left out, or its own
-- where the list names none; none stands twice.
pub pod_remediator_namespaces-exact :
    (r : PodRemediator) (n : String)
    → IsDistinct (pod_remediator_namespaces r)
      × (pod_remediator_watches_namespace r n ≡ (
          if has_named r.namespaces
          then not (n == "") && contains r.namespaces n
          else r.namespace == n))
unfolding pod_remediator_namespaces pod_remediator_watches_namespace
pod_remediator_namespaces-exact r n = (
  IsDistinct-or_own r.namespace (distinct [] r.namespaces) (distinct-IsDistinct [] r.namespaces),
  ground (
    arith,
    contains-or_own r.namespace (distinct [] r.namespaces) n,
    is_empty-distinct r.namespaces,
    contains-distinct [] r.namespaces n,
  ),
)

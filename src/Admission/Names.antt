-- ===== src/Admission/Names.antt =====
-- `validateDNSDomain` of apis/network/v1beta1/netconfig_webhook.go: the language of its pattern.
use Prim.Native.Char.{code}
use infra_operator.Base.{
  ℕ, String, Bool, true, false, ◌&&◌, ◌||◌, List, [], ◌∷◌, ◌==◌, nat_eq, leb, length, if◌then◌else◌,
}

-- The code points of a text.
abbrev pub codes : String → List ℕ
codes String.[] = []
codes (String.◌∷◌ c s) = code c ∷ codes s

-- `[a-zA-Z]`
abbrev pub is_letter : ℕ → Bool
is_letter c = (leb 97 c && leb c 122) || (leb 65 c && leb c 90)

-- `[a-zA-Z0-9]`
abbrev pub is_alphanumeric : ℕ → Bool
is_alphanumeric c = is_letter c || (leb 48 c && leb c 57)

abbrev pub all : (ℕ → Bool) → List ℕ → Bool
all p [] = true
all p (c ∷ cs) = p c && all p cs

-- The last one is a letter or a digit.
abbrev pub ends_well : List ℕ → Bool
ends_well [] = false
ends_well (c ∷ []) = is_alphanumeric c
ends_well (c ∷ d ∷ cs) = ends_well (d ∷ cs)

abbrev pub starts_well : List ℕ → Bool
starts_well [] = false
starts_well (c ∷ cs) = is_alphanumeric c

-- `[a-zA-Z0-9]([a-zA-Z0-9-]{0,61}[a-zA-Z0-9])?`
unfoldable pub is_label : List ℕ → Bool
is_label cs =
    starts_well cs
    && ends_well cs
    && all (λ c. is_alphanumeric c || c == 45) cs
    && leb (length cs) 63

-- `[a-zA-Z]{2,}`
unfoldable pub is_top_level : List ℕ → Bool
is_top_level cs = all is_letter cs && leb 2 (length cs)

-- The text between the points.
unfoldable pub split_points : List ℕ → List (List ℕ)
split_points [] = [] ∷ []
split_points (c ∷ cs) = elim (split_points cs) [
  | [] ↦ []
  | l ∷ ls ↦ if c == 46 then [] ∷ l ∷ ls else (c ∷ l) ∷ ls
]

-- One label or more, each with its point, and the top level.
abbrev pub is_domain : List (List ℕ) → Bool
is_domain [] = false
is_domain (l ∷ []) = false
is_domain (l ∷ t ∷ []) = is_label l && is_top_level t
is_domain (l ∷ m ∷ n ∷ ls) = is_label l && is_domain (m ∷ n ∷ ls)

unfoldable pub validate_dns_domain : String → Bool
validate_dns_domain name = is_domain (split_points (codes name))

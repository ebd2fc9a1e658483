-- ===== src/Base/StringMap.antt =====
-- `map[string]string`, as a function of the key. Reading a missing key gives the empty string; a nil
-- map reads as an empty one.
use Prim.Native.String.{String}
use mathlib.Core.Option.{Option, none, some}
use mathlib.Core.List.{List, [], ◌∷◌}
use infra_operator.Base.Tests.{◌==◌, string_eq, if◌then◌else◌}

abbrev pub StringMap : Type 0
StringMap = String → Option String

abbrev pub empty : StringMap
empty k = none

-- `m[k]`, with the zero value for a missing key.
abbrev pub get : StringMap → String → String
get m k = elim (m k) [ none ↦ "" | some v ↦ v ]

-- `m[k] = v`
abbrev pub set : String → String → StringMap → StringMap
set k v m j = if k == j then some v else m j

-- `delete(m, k)`
abbrev pub delete : String → StringMap → StringMap
delete k m j = if k == j then none else m j

abbrev pub delete_all : List String → StringMap → StringMap
delete_all [] m = m
delete_all (k ∷ ks) m = delete_all ks (delete k m)

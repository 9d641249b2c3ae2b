-- ===== src/Topo/Search.antt =====
-- context/user_plane_information.go: getPathBetween. The nodes are compared by their place: a UPF
-- carries a uuid of its own, so reflect.DeepEqual tells no more than that.
use smf_cdac.Base.{ℕ, zero, suc, Bool, true, false, none, some, List, [], ◌∷◌, ◌==◌, if◌then◌else◌}
use smf_cdac.Topo.Types.{Snssai, Heap, is_support_snssai}

abbrev pub Seen : Type 0
Seen = ℕ → Bool

abbrev pub mark : ℕ → Seen → Seen
mark n seen m = if m == n then true else seen m

-- How a search ends: with a path, with none and the nodes visited by then, in a panic on a nil UPF, or
-- short of fuel.
pub data Search : Type 0 where
  found : List ℕ → Search
  missed : Seen → Search
  panicked : Search
  unfinished : Search

-- The loop over the links of `cur`, which a visit of each new one continues.
unfoldable pub scan : (ℕ → Seen → Search) → Heap → Snssai → ℕ → List ℕ → Seen → Search
unfolding is_support_snssai
scan visit h s cur [] seen = missed seen
scan visit h s cur (n ∷ ns) seen = elim (seen n) [
  | true ↦ scan visit h s cur ns seen
  | false ↦ elim (is_support_snssai (h n).upf_info s) [
    | none ↦ panicked
    | some false ↦ scan visit h s cur ns (mark n seen)
    | some true ↦ elim (visit n seen) [
      | found path ↦ found (cur ∷ path)
      | missed seen' ↦ scan visit h s cur ns seen'
      | panicked ↦ panicked
      | unfinished ↦ unfinished
    ]
  ]
]

-- getPathBetween; the fuel is the depth that is left.
unfoldable pub get_path_between : ℕ → Heap → Snssai → ℕ → ℕ → Seen → Search
unfolding scan
get_path_between zero h s dest cur seen = unfinished
get_path_between (suc fuel) h s dest cur seen =
    if cur == dest
    then found (cur ∷ [])
    else scan (get_path_between fuel h s dest) h s cur (h cur).links (mark cur seen)

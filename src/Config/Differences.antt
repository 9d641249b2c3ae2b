-- ===== src/Config/Differences.antt =====
-- What the comparison of two configurations reports of the nodes of the user plane.
use smf_cdac.Base.{
  ◌≡◌, refl, sym, ◌∙◌, ap, ◌⊎◌, inl, inr, Bool-cases, Option, none, some, [], ◌∷◌, arith,
}
use smf_cdac.Base.Text.{Text, text_eq, text_eq→eq}
use smf_cdac.Base.Dict.{Dict, lookup, lookup-insert}
use smf_cdac.Config.Compare.{UpNodeConfig, absent_nodes, compare_up_nodes_configs}

-- What is in one map and not in the other.
abbrev pub without : Option UpNodeConfig → Option UpNodeConfig → Option UpNodeConfig
without none o = o
without (some y) o = none

option_cases : (o : Option UpNodeConfig) → (o ≡ none) ⊎ ((x : UpNodeConfig) × (o ≡ some x))
option_cases none = inl refl
option_cases (some x) = inr (x, refl)

lookup-absent_nodes :
    (nodes other : Dict UpNodeConfig) (j : Text)
    → lookup j (absent_nodes nodes other) ≡ without (lookup j other) (lookup j nodes)
unfolding absent_nodes lookup
lookup-absent_nodes [] other j = elim (option_cases (lookup j other)) [
  | inl e ↦ rw e refl
  | inr (x, e) ↦ rw e refl
]
lookup-absent_nodes ((name, x) ∷ nodes) other j =
    let ih = lookup-absent_nodes nodes other j in
    let put = lookup-insert name j x (absent_nodes nodes other) in
    elim (Bool-cases (text_eq name j)) [
      | inl e ↦
          let same = text_eq→eq name j e in
          let moved : lookup name other ≡ lookup j other = ap (λ k. lookup k other) same in
          elim (option_cases (lookup name other)) [
            | inl q ↦
                let there : lookup j other ≡ none = sym moved ∙ q in
                rw (absent_nodes, q, there) (put ∙ ground arith)
            | inr (y, q) ↦
                let there : lookup j other ≡ some y = sym moved ∙ q in
                rw (absent_nodes, q, there) (ih ∙ rw there refl)
          ]
      | inr e ↦ elim (option_cases (lookup name other)) [
        | inl q ↦ rw (absent_nodes, q, e) (put ∙ rw e ih)
        | inr (y, q) ↦ rw (absent_nodes, q, e) ih
      ]
    ]

-- The comparison of the user plane nodes reports as new what only the received configuration names, and
-- as deleted what only the one in use names, each under its name and with its content.
pub compare_up_nodes_configs-names :
    (old new : Dict UpNodeConfig) (j : Text)
    → let c = compare_up_nodes_configs old new in
      (lookup j c.add ≡ without (lookup j old) (lookup j new))
      × (lookup j c.del ≡ without (lookup j new) (lookup j old))
unfolding compare_up_nodes_configs
compare_up_nodes_configs-names old new j =
    (lookup-absent_nodes new old j, lookup-absent_nodes old new j)

-- ===== src/Qos/PolicyLaws.antt =====
-- What a committed policy decision leaves in the policy data of a session, name by name.
use smf_cdac.Base.{
  ◌≡◌, refl, ap, ◌∙◌, Bool, true, false, Bool-cases, inl, inr, Option, none, some, [], ◌∷◌, arith,
  if◌then◌else◌,
}
use mathlib.Core.Path.{subst}
use smf_cdac.Base.Text.{Text, text_eq, text_eq_iff, text_eq→eq}
use smf_cdac.Base.Dict.{lookup, insert, delete, lookup-insert, lookup-delete}
use smf_cdac.Qos.Types.{PointerMap}
use smf_cdac.Qos.Rules.{RulesUpdate}
use smf_cdac.Qos.Policy.{
  nil_or, pointer, no_update, note, collect, get_update, put_all, delete_names, commit_update,
  commit_if,
}

-- No name occurs twice, as in a Go map.
abbrev pub Distinct : {V : Type 0} → PointerMap V → Type 0
Distinct [] = Unit
Distinct ((k, p) ∷ m) = (lookup k m ≡ none) × Distinct m

-- What `del` and `add` hold for a name, by what the PCF sent and what the context has.
abbrev del_view : {V : Type 0} → Option (Option V) → Option (Option V) → Option (Option V)
del_view (some none) old = some none
del_view _ old = old

abbrev add_view :
    {V : Type 0} → Option (Option V) → Option V → Option (Option V) → Option (Option V)
add_view (some (some v)) none old = some (some v)
add_view _ _ old = old

abbrev first_of : {V : Type 0} → Option (Option V) → Option (Option V) → Option (Option V)
first_of (some p) old = some p
first_of none old = old

abbrev unless : {V : Type 0} → Option (Option V) → Option (Option V) → Option (Option V)
unless (some p) old = none
unless none old = old

module _ {V : Type 0} where
  fresh :
      (k name : Text) (m : PointerMap V)
      → lookup k m ≡ none
      → text_eq k name ≡ true
      → lookup name m ≡ none
  fresh k name m h e = subst (λ n. lookup n m ≡ none) (text_eq→eq k name e) h

  insert-Distinct :
      (k : Text) (p : Option V) (m : PointerMap V) → Distinct m → Distinct (insert k p m)
  unfolding insert lookup
  insert-Distinct k p [] h = (refl, tt)
  insert-Distinct k p ((j, q) ∷ m) h = elim (Bool-cases (text_eq j k)) [
    | inl e ↦ rw e (fresh j k m h.0 e, h.1)
    | inr e ↦
        let n : text_eq k j ≡ false = ground (arith, text_eq_iff k j, text_eq_iff j k) in
        rw e ((rw n at (lookup-insert k j p m)) ∙ h.0, insert-Distinct k p m h.1)
  ]

  lookup-put_all :
      (name : Text) (xs m : PointerMap V)
      → Distinct xs
      → lookup name (put_all xs m) ≡ first_of (lookup name xs) (lookup name m)
  unfolding put_all lookup
  lookup-put_all name [] m h = refl
  lookup-put_all name ((k, p) ∷ xs) m h = elim (Bool-cases (text_eq k name)) [
    | inl e ↦
        rw
          (
            lookup-put_all name xs (insert k p m) h.1,
            lookup-insert k name p m,
            e,
            fresh k name xs h.0 e,
          )
          refl
    | inr e ↦ rw (lookup-put_all name xs (insert k p m) h.1, lookup-insert k name p m, e) refl
  ]

  unless-none : (o : Option (Option V)) → unless o none ≡ none
  unless-none none = refl
  unless-none (some p) = refl

  lookup-delete_names :
      (name : Text) (xs m : PointerMap V)
      → lookup name (delete_names xs m) ≡ unless (lookup name xs) (lookup name m)
  unfolding delete_names lookup
  lookup-delete_names name [] m = refl
  lookup-delete_names name ((k, p) ∷ xs) m = elim (Bool-cases (text_eq k name)) [
    | inl e ↦
        rw (lookup-delete_names name xs (delete k m), lookup-delete k name m, e)
          (unless-none (lookup name xs))
    | inr e ↦ rw (lookup-delete_names name xs (delete k m), lookup-delete k name m, e) refl
  ]

module _ {V : Type 0} (changes : V → V → Bool) (ctxt : PointerMap V) where
  note-add-Distinct :
      (k : Text) (v : V) (o : Option V) (u : RulesUpdate V)
      → Distinct u.add
      → Distinct (note changes k v o u).add
  note-add-Distinct k v none u h = insert-Distinct k (some v) u.add h
  note-add-Distinct k v (some w) u h = elim (Bool-cases (changes v w)) [
    | inl e ↦ rw e h
    | inr e ↦ rw e h
  ]

  collect-add-Distinct :
      (rules : PointerMap V) (u : RulesUpdate V)
      → Distinct u.add
      → Distinct (collect changes ctxt rules u).add
  unfolding collect
  collect-add-Distinct [] u h = h
  collect-add-Distinct ((k, none) ∷ rules) u h = collect-add-Distinct rules _ h
  collect-add-Distinct ((k, some v) ∷ rules) u h =
      collect-add-Distinct rules _ (note-add-Distinct k v (pointer k ctxt) u h)

  note-del :
      (k : Text) (v : V) (o : Option V) (u : RulesUpdate V) → (note changes k v o u).del ≡ u.del
  note-del k v none u = refl
  note-del k v (some w) u = elim (Bool-cases (changes v w)) [
    | inl e ↦ rw e refl
    | inr e ↦ rw e refl
  ]

  note-add_known :
      (k : Text) (v w : V) (u : RulesUpdate V) → (note changes k v (some w) u).add ≡ u.add
  note-add_known k v w u = elim (Bool-cases (changes v w)) [ inl e ↦ rw e refl | inr e ↦ rw e refl ]

  if_same : (b : Bool) (x : Option (Option V)) → x ≡ (if b then x else x)
  if_same true x = refl
  if_same false x = refl

  note-add :
      (k name : Text) (v : V) (o : Option V) (u : RulesUpdate V)
      → lookup name (note changes k v o u).add ≡ (
          if text_eq k name
          then add_view (some (some v)) o (lookup name u.add)
          else lookup name u.add)
  note-add k name v none u = lookup-insert k name (some v) u.add
  note-add k name v (some w) u =
      ap (lookup name) (note-add_known k v w u) ∙ if_same (text_eq k name) (lookup name u.add)

  collect-del :
      (name : Text) (rules : PointerMap V) (u : RulesUpdate V)
      → Distinct rules
      → lookup name (collect changes ctxt rules u).del
        ≡ del_view (lookup name rules) (lookup name u.del)
  unfolding collect lookup
  collect-del name [] u h = refl
  collect-del name ((k, none) ∷ rules) u h =
      let ih = collect-del name rules (record u { del = insert k none u.del }) h.1 in
      elim (Bool-cases (text_eq k name)) [
        | inl e ↦ rw (ih, lookup-insert k name none u.del, e, fresh k name rules h.0 e) refl
        | inr e ↦ rw (ih, lookup-insert k name none u.del, e) refl
      ]
  collect-del name ((k, some v) ∷ rules) u h =
      let ih = collect-del name rules (note changes k v (pointer k ctxt) u) h.1 in
      let d = note-del k v (pointer k ctxt) u in
      elim (Bool-cases (text_eq k name)) [
        | inl e ↦ rw (ih, d, e, fresh k name rules h.0 e) refl
        | inr e ↦ rw (ih, d, e) refl
      ]

  collect-add :
      (name : Text) (rules : PointerMap V) (u : RulesUpdate V)
      → Distinct rules
      → lookup name (collect changes ctxt rules u).add
        ≡ add_view (lookup name rules) (pointer name ctxt) (lookup name u.add)
  unfolding collect lookup
  collect-add name [] u h = refl
  collect-add name ((k, none) ∷ rules) u h =
      let ih = collect-add name rules (record u { del = insert k none u.del }) h.1 in
      elim (Bool-cases (text_eq k name)) [
        | inl e ↦ rw (ih, e, fresh k name rules h.0 e) refl
        | inr e ↦ rw (ih, e) refl
      ]
  collect-add name ((k, some v) ∷ rules) u h =
      let ih = collect-add name rules (note changes k v (pointer k ctxt) u) h.1 in
      let d = note-add k name v (pointer k ctxt) u in
      elim (Bool-cases (text_eq k name)) [
        | inl e ↦
            let q : lookup k ctxt ≡ lookup name ctxt =
              ap (λ n. lookup n ctxt) (text_eq→eq k name e) in
            rw (ih, fresh k name rules h.0 e, d, e, q) refl
        | inr e ↦ rw (ih, d, e) refl
      ]

-- What a name stands for behind the commit: what the PCF did not send stays, what it sent as nil goes,
-- what the context did not have is put, and what it had stays as it was.
abbrev pub settled : {V : Type 0} → Option (Option V) → Option V → Option V
settled none old = old
settled (some none) old = none
settled (some (some v)) none = some v
settled (some (some v)) (some w) = some w

settled_cases :
    {V : Type 0} (p o : Option (Option V))
    → nil_or (unless (del_view p none) (first_of (add_view p (nil_or o) none) o))
      ≡ settled p (nil_or o)
settled_cases none o = refl
settled_cases (some none) o = refl
settled_cases (some (some v)) none = refl
settled_cases (some (some v)) (some none) = refl
settled_cases (some (some v)) (some (some w)) = refl

pub commit_if-get_update :
    {V : Type 0} (changes : V → V → Bool) (ctxt pcf : PointerMap V) (name : Text)
    → Distinct pcf
    → pointer name (commit_if (get_update changes pcf ctxt) ctxt)
      ≡ settled (lookup name pcf) (pointer name ctxt)
unfolding get_update commit_update
commit_if-get_update changes ctxt [] name h = refl
commit_if-get_update changes ctxt (e ∷ rules) name h =
    let u = collect changes ctxt (e ∷ rules) no_update in
    rw
      (
        lookup-delete_names name u.del (put_all u.add ctxt),
        lookup-put_all name u.add ctxt (collect-add-Distinct changes ctxt (e ∷ rules) no_update tt),
        collect-del changes ctxt name (e ∷ rules) no_update h,
        collect-add changes ctxt name (e ∷ rules) no_update h,
      )
      (settled_cases (lookup name (e ∷ rules)) (lookup name ctxt))

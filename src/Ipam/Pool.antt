-- ===== src/Ipam/Pool.antt =====
-- context/ip_allocator.go: _IDPool. The map `isUsed` is the function that says which keys it has. The
-- lock makes each operation one step. Numbers stay within int64.
use smf_cdac.Base.{
  ℕ, zero, suc, Bool, true, false, Option, none, some, Outcome, ok, err, panic, [], ◌∷◌,
  if◌then◌else◌,
}
use smf_cdac.Base.Int.{ℤ, pos, negsuc, ◌+ℤ◌, ◌*ℤ◌, ◌==ℤ◌, leb_ℤ, rem, span}
use smf_cdac.Base.Text.{Text}
use smf_cdac.Base.Dict.{Dict}
use smf_cdac.GoStd.Strconv.{atoi}

pub record IdPool : Type 0 where
  pub static_ips : Option (Dict Text)
  pub is_used : ℤ → Bool
  pub min_value : ℤ
  pub max_value : ℤ
  pub index : ℤ

-- The environment variable SMF_COUNT, with "1" for the empty text; an error of Atoi is only logged.
unfoldable pub smf_count : Text → ℤ
unfolding atoi
smf_count [] = pos 1
smf_count (c ∷ cs) = (atoi (c ∷ cs)).0

-- `int64((smfCount-1)*2500 + 1)`: the first id of this instance.
unfoldable pub id_init : Text → ℤ
unfolding smf_count ◌+ℤ◌ ◌*ℤ◌
id_init env = (smf_count env +ℤ negsuc 0) *ℤ pos 2500 +ℤ pos 1

unfoldable pub new_id_pool : Text → ℤ → ℤ → IdPool
unfolding id_init
new_id_pool env min_value max_value = record {
  static_ips = none;
  is_used = λ _. false;
  min_value = min_value;
  max_value = max_value;
  index = id_init env;
}

-- `isUsed[id] = true` and `delete(isUsed, id)`.
abbrev pub put : (ℤ → Bool) → ℤ → Bool → ℤ → Bool
put used id b j = if j ==ℤ id then b else used j

-- The search loops of allocate: `rounds` ids from `id` on are tried.
unfoldable pub find_free : (ℤ → Bool) → ℤ → ℕ → Option ℤ
unfolding ◌+ℤ◌
find_free used id zero = none
find_free used id (suc rounds) =
    let next = find_free used (id +ℤ pos 1) rounds in if used id then next else some id

-- The index behind an id that the first loop found.
unfoldable pub next_index : ℤ → ℤ → ℤ → ℤ
unfolding ◌+ℤ◌ rem
next_index base max_value id =
    let next = rem id max_value +ℤ pos 1 in if next ==ℤ pos 1 then base else next

-- The second loop, from the instance's first id up to the index.
unfoldable pub allocate_wrapped : ℤ → IdPool → Outcome (ℤ × IdPool)
allocate_wrapped base p =
    if leb_ℤ base p.max_value
    then (elim (find_free p.is_used base (span base p.index)) [
      | none ↦ err
      | some id ↦ ok (id, record p { is_used = put p.is_used id true; index = id +ℤ pos 1 })
    ])
    else err

-- The remainder by a `max_value` of 0 panics.
unfoldable pub allocate : Text → IdPool → Outcome (ℤ × IdPool)
allocate env p = elim (find_free p.is_used p.index (span p.index p.max_value)) [
  | none ↦ allocate_wrapped (id_init env) p
  | some id ↦
      if p.max_value ==ℤ pos 0
      then panic
      else ok (
        id,
        record p {
          is_used = put p.is_used id true;
          index = next_index (id_init env) p.max_value id;
        },
      )
]

unfoldable pub block : ℤ → IdPool → IdPool
block id p = record p { is_used = put p.is_used id true }

unfoldable pub release : ℤ → IdPool → IdPool
release id p = record p { is_used = put p.is_used id false }

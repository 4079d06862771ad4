-- ===== src/Json/Null.antt =====
-- JSON_OBJECT_FOREACH of src/include/json_util.h at a null
use rkt_io.Common.{ℕ, ◌≡◌, refl, true, false, inl, inr, Bool-cases, List}
use rkt_io.Json.{
  Json, null, object, Members, no_member, member, Reply, returned, undefined, is_null, foreach,
  parse_json, and_then,
}

-- Members, and what follows them
abbrev pub followed_by : Members → Members → Members
followed_by no_member later = later
followed_by (member k v ms) later = member k v (followed_by ms later)

after :
    {S : Type 0} (r : Reply S) {f g : S → Reply S}
    → ((s : S) → f s ≡ g s)
    → and_then r f ≡ and_then r g
after (returned s true) same = refl
after (returned s false) same = same s
after undefined same = refl

-- Whatever the callback does, a null among the entries of an object makes parse_json ignore all entries behind it: the
-- effect and the result are those of the entries before it alone.
pub parse_json-null :
    {S : Type 0} (cb : List ℕ → Json → S → Reply S) (key : List ℕ) (before later : Members) (s : S)
    → parse_json (object (followed_by before (member key null later))) cb s
      ≡ parse_json (object before) cb s
unfolding parse_json foreach
parse_json-null cb key no_member later s = refl
parse_json-null cb key (member k v ms) later s = elim (Bool-cases (is_null v)) [
  | inl e ↦ simp (e)
  | inr e ↦ let same = after (cb k v s) (λ t. parse_json-null cb key ms later t) in simp (e, same)
]

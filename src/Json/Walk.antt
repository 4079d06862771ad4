-- ===== src/Json/Walk.antt =====
-- What a callback keeps, the walk over an object's entries keeps.
use rkt_io.Common.{ℕ, Bool, true, false, if◌then◌else◌, List}
use rkt_io.Json.{
  Json, null, double, boolean, int, string, array, object, Members, no_member, member, Reply,
  returned, undefined, is_null, foreach, parse_json, and_then,
}

-- The property holds of the state if the result is 0.
unfoldable pub Keeps : {S : Type 0} → (S → Type 0) → Reply S → Type 0
Keeps P (returned s false) = P s
Keeps P (returned s true) = Unit {0}
Keeps P undefined = Unit {0}

pub Keeps-true : {S : Type 0} (P : S → Type 0) (s : S) → Keeps P (returned s true)
unfolding Keeps
Keeps-true P s = _

pub Keeps-false : {S : Type 0} (P : S → Type 0) (s : S) → P s → Keeps P (returned s false)
unfolding Keeps
Keeps-false P s p = p

pub Keeps-undefined : {S : Type 0} (P : S → Type 0) → Keeps P undefined
unfolding Keeps
Keeps-undefined P = _

pub Keeps-if :
    {S : Type 0} (P : S → Type 0) (b : Bool) (r t : Reply S)
    → Keeps P r
    → Keeps P t
    → Keeps P (if b then r else t)
Keeps-if P true r t p q = p
Keeps-if P false r t p q = q

Keeps-and_then :
    {S : Type 0} {P : S → Type 0} (r : Reply S) (next : S → Reply S)
    → Keeps P r
    → ((s : S) → P s → Keeps P (next s))
    → Keeps P (and_then r next)
unfolding Keeps
Keeps-and_then (returned s false) next p q = q s p
Keeps-and_then (returned s true) next p q = p
Keeps-and_then undefined next p q = p

foreach-Keeps :
    {S : Type 0} {P : S → Type 0} (cb : List ℕ → Json → S → Reply S)
    → ((key : List ℕ) (v : Json) (s : S) → P s → Keeps P (cb key v s))
    → (ms : Members) (s : S) → P s
    → Keeps P (foreach cb ms s)
unfolding foreach Keeps
foreach-Keeps cb each no_member s p = p
foreach-Keeps cb each (member key v ms) s p = Keeps-if _ (is_null v) _ _ p (
    Keeps-and_then (cb key v s) (λ t. foreach cb ms t) (each key v s p)
      (λ t q. foreach-Keeps cb each ms t q))

pub parse_json-Keeps :
    {S : Type 0} {P : S → Type 0} (cb : List ℕ → Json → S → Reply S)
    → ((key : List ℕ) (v : Json) (s : S) → P s → Keeps P (cb key v s))
    → (v : Json) (s : S) → P s
    → Keeps P (parse_json v cb s)
unfolding parse_json Keeps
parse_json-Keeps cb each (object ms) s p = foreach-Keeps cb each ms s p
parse_json-Keeps cb each null s p = _
parse_json-Keeps cb each double s p = _
parse_json-Keeps cb each (boolean b) s p = _
parse_json-Keeps cb each (int n) s p = _
parse_json-Keeps cb each (string t) s p = _
parse_json-Keeps cb each (array es) s p = _

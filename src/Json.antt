-- ===== src/Json.antt =====
-- src/shared/json_util.c: walking the entries of a JSON object. A value is what json-c makes of a text; its parser is an
-- argument. A string is the list of its bytes as the C functions see it. A null is a NULL pointer in json-c.
pub mod Null
pub mod Walk
pub mod File
mod Tests
use Prim.Native.Char.{code}
use Prim.Native.String.{String}
use rkt_io.Common.{
  ℕ, Bool, true, false, ◌&&◌, ◌==◌, if◌then◌else◌, Option, some, none, List, [], ◌∷◌,
}

mutual
  pub data Json : Type 0 where
    null double : Json
    boolean : Bool → Json
    int : ℕ → Json
    string : List ℕ → Json
    array : Elements → Json
    object : Members → Json

  pub data Elements : Type 0 where
    no_element : Elements
    element : Json → Elements → Elements

  pub data Members : Type 0 where
    no_member : Members
    member : List ℕ → Json → Members → Members

-- What a callback or a walk has made of the state: the new state with whether the result is not 0, or undefined
-- behaviour
pub data Reply (S : Type 0) : Type 0 where
  returned : S → Bool → Reply S
  undefined : Reply S

-- json_object_get_type
pub data Kind : Type 0 where
  kind_null kind_double kind_boolean kind_int kind_string kind_array kind_object : Kind

abbrev pub get_type : Json → Kind
get_type null = kind_null
get_type double = kind_double
get_type (boolean b) = kind_boolean
get_type (int n) = kind_int
get_type (string s) = kind_string
get_type (array es) = kind_array
get_type (object ms) = kind_object

abbrev pub is_null : Json → Bool
is_null null = true
is_null double = false
is_null (boolean b) = false
is_null (int n) = false
is_null (string s) = false
is_null (array es) = false
is_null (object ms) = false

abbrev pub codes : String → List ℕ
codes String.[] = []
codes (String.◌∷◌ c s) = code c ∷ codes s

-- Whether strcmp gives 0
abbrev pub equal : List ℕ → List ℕ → Bool
equal [] [] = true
equal [] (y ∷ ys) = false
equal (x ∷ xs) [] = false
equal (x ∷ xs) (y ∷ ys) = x == y && equal xs ys

-- What follows a callback that returned 0
abbrev pub and_then : {S : Type 0} → Reply S → (S → Reply S) → Reply S
and_then (returned s false) next = next s
and_then (returned s true) next = returned s true
and_then undefined next = undefined

-- JSON_OBJECT_FOREACH around a callback: a null, which is a NULL pointer, ends the loop.
unfoldable pub foreach : {S : Type 0} → (List ℕ → Json → S → Reply S) → Members → S → Reply S
foreach cb no_member s = returned s false
foreach cb (member key v ms) s =
    if is_null v then returned s false else and_then (cb key v s) (λ t. foreach cb ms t)

-- json_object_iter_begin of what is no object is undefined.
unfoldable pub parse_json : {S : Type 0} → Json → (List ℕ → Json → S → Reply S) → S → Reply S
unfolding foreach
parse_json (object ms) cb s = foreach cb ms s
parse_json null cb s = undefined
parse_json double cb s = undefined
parse_json (boolean b) cb s = undefined
parse_json (int n) cb s = undefined
parse_json (string t) cb s = undefined
parse_json (array es) cb s = undefined

-- What json-c and the C library do: isspace, and json_tokener_parse_verbose, which gives no value for a text that
-- is malformed
pub record Parser : Type 0 where
  pub isspace : ℕ → Bool
  pub parse_verbose : List ℕ → Option Json

-- `*err`: the first character is none of an object, the description of the parser, or NULL, which a callback's error
-- leaves there
pub data Err : Type 0 where
  unexpected_character : ℕ → Err
  tokener no_description : Err

pub data Parsed (S : Type 0) : Type 0 where
  success : S → Parsed S
  failure : S → Err → Parsed S
  crash : Parsed S

-- The first character that is no space; 0 at the end of the string
abbrev pub first_character : (ℕ → Bool) → List ℕ → ℕ
first_character isspace [] = 0
first_character isspace (c ∷ cs) =
    let later = first_character isspace cs in if isspace c then later else c

abbrev pub of_reply : {S : Type 0} → Reply S → Parsed S
of_reply (returned s false) = success s
of_reply (returned s true) = failure s no_description
of_reply undefined = crash

abbrev pub of_value : {S : Type 0} → Option Json → (List ℕ → Json → S → Reply S) → S → Parsed S
of_value none cb s = failure s tokener
of_value (some v) cb s = of_reply (parse_json v cb s)

unfoldable pub parse_json_from_str :
    {S : Type 0} → Parser → List ℕ → (List ℕ → Json → S → Reply S) → S → Parsed S
unfolding parse_json
parse_json_from_str parser str cb s =
    let c = first_character parser.isspace str in
    if c == b'{'
    then of_value (parser.parse_verbose str) cb s
    else failure s (unexpected_character c)

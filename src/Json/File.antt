-- ===== src/Json/File.antt =====
-- parse_json_from_file of src/shared/json_util.c. What open, lseek, malloc and read answer is an argument; the loop over read runs on fuel.
use rkt_io.Common.{
  ℕ, zero, suc, ◌-◌, ◌^◌, ◌<◌, ltb, lt→ltb, Bool, true, ◌==◌, if◌then◌else◌, Option, some, none,
  List, [], ◌∷◌, ◌++◌, append-nil, append_assoc, length, length-append, ◌≡◌, ◌≢◌, refl, sym, ap,
  ◌∙◌, arith,
}
use rkt_io.Json.{Json, Reply, Parser, Parsed, parse_json_from_str}

pub data ReadRet : Type 0 where
  bytes_read : List ℕ → ReadRet
  read_error : ReadRet

-- Whether open succeeds, the size by lseek, whether malloc succeeds, what its memory holds from a position up to the size, and read with
-- the position in the file and the room that is left
pub record File : Type 0 where
  pub opens : Bool
  pub len : ℕ
  pub has_memory : Bool
  pub memory : ℕ → List ℕ
  pub read : ℕ → ℕ → ReadRet

-- What the loop over read comes to: what is in the buffer, the error of read, or an `off` that is no int any more, with which the
-- buffer is left
pub data Buffered : Type 0 where
  buffered : List ℕ → Buffered
  unread past_int : Buffered

pub data Loaded (S : Type 0) : Type 0 where
  open_failed no_memory read_failed out_of_bounds : Loaded S
  loaded : Parsed S → Loaded S

-- The string that stands in a buffer with a 0 behind it
abbrev pub c_string : List ℕ → List ℕ
c_string [] = []
c_string (c ∷ cs) = let rest = c_string cs in if c == 0 then [] else c ∷ rest

-- The loop; `off` is the length of what is in the buffer, an int.
unfoldable pub file_loop : ℕ → File → List ℕ → Option Buffered
file_loop zero file buf = none
file_loop (suc fuel) file buf = elim (file.read (length buf) (file.len - length buf)) [
  | read_error ↦ some unread
  | bytes_read [] ↦ some (buffered buf)
  | bytes_read (c ∷ cs) ↦
      let again = file_loop fuel file (buf ++ (c ∷ cs)) in
      if ltb (length (buf ++ (c ∷ cs))) (2 ^ 31) then again else some past_int
]

abbrev pub parse_loaded :
    {S : Type 0} → File → Parser → (List ℕ → Json → S → Reply S) → S → Buffered → Loaded S
parse_loaded file parser cb s unread = read_failed
parse_loaded file parser cb s past_int = out_of_bounds
parse_loaded file parser cb s (buffered buf) =
    loaded (parse_json_from_str parser (c_string (buf ++ file.memory (length buf))) cb s)

abbrev pub on_loop : {S : Type 0} → (Buffered → Loaded S) → Option Buffered → Option (Loaded S)
on_loop f none = none
on_loop f (some b) = some (f b)

unfoldable pub parse_json_from_file :
    {S : Type 0} → ℕ → File → Parser → (List ℕ → Json → S → Reply S) → S → Option (Loaded S)
unfolding file_loop
parse_json_from_file fuel file parser cb s =
    if file.opens
    then (if file.has_memory
        then on_loop (parse_loaded file parser cb s) (file_loop fuel file [])
        else some no_memory)
    else some open_failed

abbrev pub NoZero : List ℕ → Type 0
NoZero [] = Unit {0}
NoZero (c ∷ cs) = (c ≢ 0) × NoZero cs

-- A file that holds `text` and can be read: every read of a part that is not empty gives one or more of its bytes, in order.
pub record Holds (file : File) (text : List ℕ) : Type 0 where
  pub size : file.len ≡ length text
  pub ends : file.memory (length text) ≡ []
  pub reads :
      (before rest : List ℕ)
      → text ≡ before ++ rest
      → (part more : List ℕ) × (rest ≡ part ++ more)
        × (file.read (length before) (file.len - length before) ≡ bytes_read part)
        × ((part ≡ []) → rest ≡ [])

c_string-NoZero : (cs : List ℕ) → NoZero cs → c_string cs ≡ cs
c_string-NoZero [] h = refl
c_string-NoZero (c ∷ cs) (real, h) = let rest = c_string-NoZero cs h in ground (arith, rest)

one_read :
    (fuel : ℕ) (file : File) (text before rest part more : List ℕ)
    → text ≡ before ++ rest
    → length rest < suc fuel
    → length text < 2 ^ 31
    → rest ≡ part ++ more
    → file.read (length before) (file.len - length before) ≡ bytes_read part
    → ((part ≡ []) → rest ≡ [])
    → ((text ≡ (before ++ part) ++ more)
        → length more < fuel
        → file_loop fuel file (before ++ part) ≡ some (buffered text))
    → file_loop (suc fuel) file before ≡ some (buffered text)
unfolding file_loop
one_read fuel file text before rest [] more e enough small split answer whole next =
    rw (file_loop, answer)
      (ap (λ z. some (buffered z))
        (sym (e ∙ ap (λ z. before ++ z) (whole refl) ∙ append-nil before)))
one_read fuel file text before rest (c ∷ cs) more e enough small split answer whole next =
    let all : text ≡ (before ++ (c ∷ cs)) ++ more =
      e ∙ ap (λ z. before ++ z) split ∙ sym (append_assoc before (c ∷ cs) more) in
    let fits : length (before ++ (c ∷ cs)) < 2 ^ 31 =
      omega (arith, ap length all, length-append (before ++ (c ∷ cs)) more) in
    rw (file_loop, answer, lt→ltb (length (before ++ (c ∷ cs))) (2 ^ 31) fits)
      (next all (omega (arith, ap length split, length-append (c ∷ cs) more)))

file_loop_lem :
    (fuel : ℕ) (file : File) (text before rest : List ℕ)
    → Holds file text
    → text ≡ before ++ rest
    → length rest < fuel
    → length text < 2 ^ 31
    → file_loop fuel file before ≡ some (buffered text)
file_loop_lem zero file text before rest holds e enough small = absurd (omega arith)
file_loop_lem (suc fuel) file text before rest holds e enough small =
    let (part, more, split, answer, whole) = holds.reads before rest e in
    one_read fuel file text before rest part more e enough small split answer whole
      (λ e1 enough1. file_loop_lem fuel file text (before ++ part) more holds e1 enough1 small)

-- For a file that can be read, in however many parts, and that holds a text of fewer than 2^31 bytes, none of them zero, with more fuel than
-- the text has bytes: parse_json_from_file ends and does what parse_json_from_str does with the text.
pub parse_json_from_file_lem :
    {S : Type 0} (fuel : ℕ) (file : File) (parser : Parser) (cb : List ℕ → Json → S → Reply S)
    (s : S) (text : List ℕ)
    → file.opens ≡ true
    → file.has_memory ≡ true
    → Holds file text
    → NoZero text
    → length text < 2 ^ 31
    → length text < fuel
    → parse_json_from_file fuel file parser cb s
      ≡ some (loaded (parse_json_from_str parser text cb s))
unfolding parse_json_from_file
parse_json_from_file_lem fuel file parser cb s text opens memory holds real small enough =
    let whole = file_loop_lem fuel file text [] text holds refl enough small in
    let same : c_string (text ++ file.memory (length text)) ≡ text =
      ap (λ m. c_string (text ++ m)) holds.ends
      ∙ ap c_string (append-nil text)
      ∙ c_string-NoZero text real in
    let goes : parse_json_from_file fuel file parser cb s
        ≡ on_loop (parse_loaded file parser cb s) (file_loop fuel file []) =
      simp (opens, memory) refl in
    goes
    ∙ ap (on_loop (parse_loaded file parser cb s)) whole
    ∙ (ap (λ t. some (loaded (parse_json_from_str parser t cb s))) same)

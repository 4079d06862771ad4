-- ===== src/Json/Tests.antt =====
-- The theorem on src/shared/json_util.c at a small object.
use rkt_io.Json.File.{File, bytes_read, loaded, parse_json_from_file, parse_json_from_file_lem}
use rkt_io.Common.{
  some, length, take, drop, [], ◌∷◌, ◌++◌, ◌-◌, ap, ◌∙◌, arith, ℕ, ◌≡◌, suc, refl, true, false,
  List,
}
use rkt_io.Json.{
  Json, object, string, boolean, Members, no_member, member, Reply, returned, foreach, parse_json,
  codes, Parser, parse_json_from_str,
}

abbrev count : List ℕ → Json → ℕ → Reply ℕ
count key v n = returned (suc n) false

abbrev two : Members
two =
    member (codes "key") (string (codes "aa")) (member (codes "readonly") (boolean true) no_member)

two_counted : parse_json (object two) count 0 ≡ returned 2 false
unfolding parse_json foreach
two_counted = refl

-- A file whose reads give one byte each
abbrev empty_object : List ℕ
empty_object = codes "{}"

abbrev slow_file : File
slow_file = record {
  opens = true;
  len = 2;
  has_memory = true;
  memory = λ n. [];
  read = λ off room. bytes_read (take 1 (drop off empty_object));
}

drop-length : (before rest : List ℕ) → drop (length before) (before ++ rest) ≡ rest
drop-length [] rest = refl
drop-length (c ∷ cs) rest = drop-length cs rest

slow_reads :
    (before rest : List ℕ)
    → empty_object ≡ before ++ rest
    → (part more : List ℕ) × (rest ≡ part ++ more)
      × (slow_file.read (length before) (slow_file.len - length before) ≡ bytes_read part)
      × ((part ≡ []) → rest ≡ [])
slow_reads before [] e =
    let left : drop (length before) empty_object ≡ [] =
      ap (drop (length before)) e ∙ drop-length before [] in
    ([], [], refl, ap (λ z. bytes_read (take 1 z)) left, λ h. refl)
slow_reads before (c ∷ cs) e =
    let left : drop (length before) empty_object ≡ c ∷ cs =
      ap (drop (length before)) e ∙ drop-length before (c ∷ cs) in
    (c ∷ [], cs, refl, ap (λ z. bytes_read (take 1 z)) left, λ h. cc)

abbrev parser : Parser
parser = record { isspace = λ c. false; parse_verbose = λ t. some (object no_member) }

parse_json_from_file_lem_example :
    parse_json_from_file 3 slow_file parser count 0
    ≡ some (loaded (parse_json_from_str parser empty_object count 0))
parse_json_from_file_lem_example =
    parse_json_from_file_lem 3 slow_file parser count 0 empty_object refl refl
      (record { size = refl; ends = refl; reads = slow_reads }) (omega arith, (omega arith, _))
      (omega arith) (omega arith)

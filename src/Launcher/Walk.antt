-- ===== src/Launcher/Walk.antt =====
-- What the entries of a configuration do to one option of src/main/sgxlkl_config.c
use rkt_io.Common.{
  ℕ, zero, suc, ◌≡◌, ◌⊎◌, inl, inr, refl, sym, ap, ap₂, ◌∙◌, subst, Bool, true, false, Bool-cases,
  if◌then◌else◌, some, List, [], ◌∷◌, get_elem?, arith,
}
use rkt_io.Json.{
  Json, null, double, boolean, int, string, array, object, Members, no_member, member, Reply,
  returned, is_null, foreach, equal,
}
use rkt_io.Launcher.{
  Elem, OptType, type_bool, type_uint, type_char, type_json, Env, config_elem_by_key, set_entry,
  parse_sgxlkl_config_entry,
}

equal_refl : (k : List ℕ) → equal k k ≡ true
equal_refl [] = refl
equal_refl (c ∷ k) = ground (arith, equal_refl k)

equal→same : (j k : List ℕ) → equal j k ≡ true → j ≡ k
equal→same [] [] e = refl
equal→same [] (c ∷ k) e = absurd (ground (arith, e))
equal→same (b ∷ j) [] e = absurd (ground (arith, e))
equal→same (b ∷ j) (c ∷ k) e =
    let head : b ≡ c = ground (arith, e) in
    let tail : equal j k ≡ true = ground (arith, e) in ap₂ ◌∷◌ head (equal→same j k tail)

-- The option at a place, none before which has its key
abbrev pub IsFirst : List ℕ → List Elem → ℕ → Elem → Type 0
IsFirst key [] i ce = ⊥
IsFirst key (e ∷ es) zero ce = (e ≡ ce) × (ce.json_key ≡ key)
IsFirst key (e ∷ es) (suc i) ce = (equal e.json_key key ≡ false) × IsFirst key es i ce

pub get_elem?-IsFirst :
    (key : List ℕ) (table : List Elem) (i : ℕ) (ce : Elem)
    → IsFirst key table i ce
    → (get_elem? table i ≡ some ce) × (ce.json_key ≡ key)
get_elem?-IsFirst key [] i ce first = absurd first
get_elem?-IsFirst key (e ∷ es) zero ce (same, named) = (ap some same, named)
get_elem?-IsFirst key (e ∷ es) (suc i) ce (other, first) = get_elem?-IsFirst key es i ce first

-- Its own entry
config_elem_by_key_hit :
    (key : List ℕ) (f : Elem → Elem) (table : List Elem) (i : ℕ) (ce : Elem)
    → (f ce).json_key ≡ key
    → IsFirst key table i ce
    → IsFirst key (config_elem_by_key key f table) i (f ce)
unfolding config_elem_by_key
config_elem_by_key_hit key f [] i ce named first = absurd first
config_elem_by_key_hit key f (e ∷ es) zero ce named (same, own) =
    let hit : equal e.json_key key ≡ true =
      subst (λ k. equal e.json_key k ≡ true) (ap (λ x. x.json_key) same ∙ own)
        (equal_refl e.json_key) in
    subst (λ t. IsFirst key t zero (f ce))
      (sym (ap (λ b. if b then f e ∷ es else e ∷ config_elem_by_key key f es) hit))
      (ap f same, named)
config_elem_by_key_hit key f (e ∷ es) (suc i) ce named (other, first) =
    subst (λ t. IsFirst key t (suc i) (f ce))
      (sym (ap (λ b. if b then f e ∷ es else e ∷ config_elem_by_key key f es) other))
      (other, config_elem_by_key_hit key f es i ce named first)

-- An entry with another key
config_elem_by_key_miss :
    (key other : List ℕ) (f : Elem → Elem) (table : List Elem) (i : ℕ) (ce : Elem)
    → ((e : Elem) → (f e).json_key ≡ e.json_key)
    → equal key other ≡ false
    → IsFirst key table i ce
    → IsFirst key (config_elem_by_key other f table) i ce
unfolding config_elem_by_key
config_elem_by_key_miss key other f [] i ce keeps differ first = absurd first
config_elem_by_key_miss key other f (e ∷ es) zero ce keeps differ (same, own) =
    let miss : equal e.json_key other ≡ false =
      subst (λ k. equal k other ≡ false) (sym (ap (λ x. x.json_key) same ∙ own)) differ in
    subst (λ t. IsFirst key t zero ce)
      (sym (ap (λ b. if b then f e ∷ es else e ∷ config_elem_by_key other f es) miss)) (same, own)
config_elem_by_key_miss key other f (e ∷ es) (suc i) ce keeps differ (before, first) =
    elim (Bool-cases (equal e.json_key other)) [
      | inl hit ↦
          subst (λ t. IsFirst key t (suc i) ce)
            (sym (ap (λ b. if b then f e ∷ es else e ∷ config_elem_by_key other f es) hit))
            (subst (λ k. equal k key ≡ false) (sym (keeps e)) before, first)
      | inr miss ↦
          subst (λ t. IsFirst key t (suc i) ce)
            (sym (ap (λ b. if b then f e ∷ es else e ∷ config_elem_by_key other f es) miss))
            (before, config_elem_by_key_miss key other f es i ce keeps differ first)
    ]

pub OptType-cases :
    (t : OptType) → (t ≡ type_bool) ⊎ ((t ≡ type_uint) ⊎ ((t ≡ type_char) ⊎ (t ≡ type_json)))
OptType-cases type_bool = inl refl
OptType-cases type_uint = inr (inl refl)
OptType-cases type_char = inr (inr (inl refl))
OptType-cases type_json = inr (inr (inr refl))

pub set_entry-json_key :
    (env : Env) (v : Json) (ce : Elem) → (set_entry env v ce).json_key ≡ ce.json_key
unfolding set_entry
set_entry-json_key env null ce = refl
set_entry-json_key env double ce = refl
set_entry-json_key env (array es) ce = refl
set_entry-json_key env (boolean b) ce = ground (arith, OptType-cases ce.type)
set_entry-json_key env (int n) ce = ground (arith, OptType-cases ce.type)
set_entry-json_key env (string s) ce = ground (arith, OptType-cases ce.type)
set_entry-json_key env (object ms) ce = ground (arith, OptType-cases ce.type)

-- The entries with the key, in order, up to a null
unfoldable pub own_entries : Env → List ℕ → Members → Elem → Elem
unfolding set_entry
own_entries env key no_member ce = ce
own_entries env key (member k v ms) ce =
    let hit = own_entries env key ms (set_entry env v ce) in
    let miss = own_entries env key ms ce in
    if is_null v then ce else if equal key k then hit else miss

-- The walk ends, and leaves the option with what its own entries make of it.
abbrev pub Finds : List ℕ → ℕ → Elem → Reply (List Elem) → Type 0
Finds key i ce r = (table : List Elem) × (r ≡ returned table false) × IsFirst key table i ce

Finds-if :
    {key : List ℕ} {i : ℕ} (b : Bool) (ce de : Elem) (r t : Reply (List Elem))
    → Finds key i ce r
    → Finds key i de t
    → Finds key i (if b then ce else de) (if b then r else t)
Finds-if true ce de r t p q = p
Finds-if false ce de r t p q = q

-- One entry that is no null, and the rest
Finds-entry :
    (env : Env) (key k : List ℕ) (v : Json) (ms : Members) (table : List Elem) (i : ℕ) (ce : Elem)
    → ((es : List Elem) (de : Elem)
        → IsFirst key es i de
        → Finds key i (own_entries env key ms de) (foreach (parse_sgxlkl_config_entry env) ms es))
    → IsFirst key table i ce
    → (b : Bool) → equal key k ≡ b
    → Finds key i
        (if b then own_entries env key ms (set_entry env v ce) else own_entries env key ms ce)
        (foreach (parse_sgxlkl_config_entry env) ms (config_elem_by_key k (set_entry env v) table))
Finds-entry env key k v ms table i ce next first true hit =
    let named = set_entry-json_key env v ce ∙ (get_elem?-IsFirst key table i ce first).1 in
    next _ (set_entry env v ce) (
      subst (λ j. IsFirst key (config_elem_by_key j (set_entry env v) table) i (set_entry env v ce))
        (equal→same key k hit)
        (config_elem_by_key_hit key (set_entry env v) table i ce named first))
Finds-entry env key k v ms table i ce next first false miss = next _ ce (
    config_elem_by_key_miss key k (set_entry env v) table i ce (set_entry-json_key env v) miss
      first)

pub foreach-Finds :
    (env : Env) (key : List ℕ) (ms : Members) (table : List Elem) (i : ℕ) (ce : Elem)
    → IsFirst key table i ce
    → Finds key i (own_entries env key ms ce) (foreach (parse_sgxlkl_config_entry env) ms table)
unfolding foreach parse_sgxlkl_config_entry own_entries
foreach-Finds env key no_member table i ce first = (table, refl, first)
foreach-Finds env key (member k v ms) table i ce first =
    Finds-if (is_null v) _ _ _ _ (table, refl, first)
      (Finds-entry env key k v ms table i ce (λ es de found. foreach-Finds env key ms es i de found)
        first (equal key k) refl)

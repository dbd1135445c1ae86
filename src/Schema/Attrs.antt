-- ===== src/Schema/Attrs.antt =====
-- packages/graphschema/src/graphschema/_ir.py: what `_check_attrs` decides.
use open_range.Base.{
  String, List, [], ◌∷◌, Bool, true, false, Option, none, some, Dict, get, any, All, All_map, Memᴰ,
  flat_map-nil_iff, Option-cases, Bool-cases, ◌≡◌, refl, ◌≢◌, ◌↔◌, sym, inl, inr, arith, string_eq,
  ◌==◌,
}
use open_range.Value.{ℤ, Value, bool, int, float, str}
use open_range.Graph.{Node, WorldGraph}
use open_range.Schema.{
  AttrType, AttrSpec, is_in, check_enum, check_target, check_ref, check_by_type, check_attr_value,
  check_attr, check_attrs,
}

-- Which values a type of attribute admits, told from the ontology's side.
pub data Conforms (graph : WorldGraph) (spec : AttrSpec) : Value → Type 0 where
  is_string : {s : String} → spec.type ≡ AttrType.string → Conforms graph spec (str s)
  is_int : {n : ℤ} → spec.type ≡ AttrType.integer → Conforms graph spec (int n)
  is_whole : {n : ℤ} → spec.type ≡ AttrType.floating → Conforms graph spec (int n)
  is_float : {t : String} → spec.type ≡ AttrType.floating → Conforms graph spec (float t)
  is_bool : {b : Bool} → spec.type ≡ AttrType.boolean → Conforms graph spec (bool b)
  is_json : {v : Value} → spec.type ≡ AttrType.json → Conforms graph spec v
  one_of :
      {s : String} (choices : List String)
      → spec.type ≡ AttrType.enumeration
      → spec.enum ≡ some choices
      → Memᴰ s choices
      → Conforms graph spec (str s)
  names_node :
      {s : String} (target : Node)
      → spec.type ≡ AttrType.ref
      → get s graph.nodes ≡ some target
      → ((kinds : List String) → spec.ref_kinds ≡ some kinds → kinds ≢ [] → Memᴰ target.kind kinds)
      → Conforms graph spec (str s)

pub is_in_iff : (s : String) (xs : List String) → (is_in s xs ≡ true) ↔ Memᴰ s xs
unfolding is_in any
is_in_iff s [] = (λ h. cc, λ m. elim m [ ])
is_in_iff s (x ∷ xs) = (
  λ h. elim (Bool-cases (x == s)) [
    | inl t ↦ Memᴰ.head (sym ((string_eq.beq_iff x s).0 t))
    | inr f ↦ Memᴰ.tail ((is_in_iff s xs).0 (rw f at h))
  ],
  λ m. back m (is_in_iff s xs).1,
)
  where
    back :
        Memᴰ s (x ∷ xs)
        → (Memᴰ s xs → any (λ y. y == s) xs ≡ true)
        → any (λ y. y == s) (x ∷ xs) ≡ true
    back (Memᴰ.head p) rest = ground (arith, string_eq.beq_iff x s)
    back (Memᴰ.tail m) rest = ground (arith, rest m)

enum-Conforms :
    (graph : WorldGraph) (spec : AttrSpec) (where_id s : String)
    → spec.type ≡ AttrType.enumeration
    → check_enum where_id (str s) spec ≡ []
    → Conforms graph spec (str s)
unfolding check_enum
enum-Conforms graph spec where_id s t h = elim (Option-cases spec.enum) [
  | inl absent ↦ absurd (ground arith)
  | inr (choices, e) ↦
      let found : is_in s choices ≡ true = ground arith in
      one_of choices t e ((is_in_iff s choices).0 found)
]

ref-Conforms :
    (graph : WorldGraph) (spec : AttrSpec) (where_id s : String)
    → spec.type ≡ AttrType.ref
    → check_ref where_id (str s) spec graph ≡ []
    → Conforms graph spec (str s)
unfolding check_ref check_target
ref-Conforms graph spec where_id s t h = elim (Option-cases (get s graph.nodes)) [
  | inl absent ↦ absurd (ground arith)
  | inr (target, found) ↦ names_node target t found (λ kinds e some_kind.
      allowed target kinds e some_kind (rw (found, check_ref, check_target) at h))
]
  where
    allowed :
        (target : Node) (kinds : List String)
        → spec.ref_kinds ≡ some kinds
        → kinds ≢ []
        → check_target where_id (some target) spec ≡ []
        → Memᴰ target.kind kinds
    allowed target [] e other q = absurd (other refl)
    allowed target (k ∷ ks) e other q = (is_in_iff target.kind (k ∷ ks)).0 (ground arith)

check-Conforms :
    (graph : WorldGraph) (spec : AttrSpec) (where_id : String) (type : AttrType) (value : Value)
    → spec.type ≡ type
    → check_by_type type where_id value spec graph ≡ []
    → Conforms graph spec value
unfolding check_by_type
check-Conforms graph spec where_id AttrType.string (str s) t h = is_string t
check-Conforms graph spec where_id AttrType.integer (int n) t h = is_int t
check-Conforms graph spec where_id AttrType.floating (int n) t h = is_whole t
check-Conforms graph spec where_id AttrType.floating (float x) t h = is_float t
check-Conforms graph spec where_id AttrType.boolean (bool b) t h = is_bool t
check-Conforms graph spec where_id AttrType.json v t h = is_json t
check-Conforms graph spec where_id AttrType.enumeration (str s) t h =
    enum-Conforms graph spec where_id s t h
check-Conforms graph spec where_id AttrType.ref (str s) t h = ref-Conforms graph spec where_id s t h
check-Conforms graph spec where_id type v t h = cc

target-quiet :
    (spec : AttrSpec) (where_id : String) (target : Node) (kinds : Option (List String))
    → spec.ref_kinds ≡ kinds
    → ((ks : List String) → kinds ≡ some ks → ks ≢ [] → Memᴰ target.kind ks)
    → check_target where_id (some target) spec ≡ []
unfolding check_target
target-quiet spec where_id target none e allowed = ground arith
target-quiet spec where_id target (some []) e allowed = ground arith
target-quiet spec where_id target (some (k ∷ ks)) e allowed =
    let m = (is_in_iff target.kind (k ∷ ks)).1 (allowed (k ∷ ks) refl (λ p. cc)) in ground arith

Conforms-check :
    {graph : WorldGraph} {spec : AttrSpec} (where_id : String) {value : Value}
    → Conforms graph spec value
    → check_attr_value where_id value spec graph ≡ []
unfolding check_attr_value
Conforms-check where_id (is_string t) = rw (t, check_attr_value)
Conforms-check where_id (is_int t) = rw (t, check_attr_value)
Conforms-check where_id (is_whole t) = rw (t, check_attr_value)
Conforms-check where_id (is_float t) = rw (t, check_attr_value)
Conforms-check where_id (is_bool t) = rw (t, check_attr_value)
Conforms-check where_id (is_json t) = rw (t, check_attr_value)
Conforms-check {spec = spec} where_id (one_of {s = s} choices t e m) =
    ground (arith, (is_in_iff s choices).1 m)
Conforms-check {spec = spec} where_id (names_node {s = s} target t found allowed) =
    rw (t, check_attr_value, found) (target-quiet spec where_id target spec.ref_kinds refl allowed)

abbrev pub OptionalFits : WorldGraph → AttrSpec → Option Value → Type 0
OptionalFits graph spec none = spec.required ≡ false
OptionalFits graph spec (some value) = Conforms graph spec value

attr-fits :
    (where_id : String) (graph : WorldGraph) (spec : AttrSpec) (o : Option Value)
    → check_attr where_id o spec graph ≡ []
    → OptionalFits graph spec o
unfolding check_attr
attr-fits where_id graph spec none h = ground arith
attr-fits where_id graph spec (some v) h = check-Conforms graph spec where_id spec.type v refl h

fits-attr :
    (where_id : String) (graph : WorldGraph) (spec : AttrSpec) (o : Option Value)
    → OptionalFits graph spec o
    → check_attr where_id o spec graph ≡ []
unfolding check_attr
fits-attr where_id graph spec none h = rw h
fits-attr where_id graph spec (some v) h = Conforms-check where_id h

-- An attribute may be missing if it is not required, and conforms if it is there.
abbrev pub AttrFits : WorldGraph → Dict String Value → String × AttrSpec → Type 0
AttrFits graph vals e = OptionalFits graph e.1 (get e.0 vals)

-- `_check_attrs` finds nothing exactly when every declared attribute is either there with a value
-- that conforms to its spec (a reference to a node of an allowed kind, a listed choice, a value of
-- the primitive type), or is missing and not required.
pub check_attrs-nil_iff :
    (where_id : String) (vals : Dict String Value) (specs : Dict String AttrSpec)
    (graph : WorldGraph)
    → (check_attrs where_id vals specs graph ≡ []) ↔ All (AttrFits graph vals) specs
unfolding check_attrs
check_attrs-nil_iff where_id vals specs graph =
    let f = λ (e : String × AttrSpec). check_attr where_id (get e.0 vals) e.1 graph in
    (
      λ h.
          All_map (λ e q. attr-fits where_id graph e.1 (get e.0 vals) q) specs
            ((flat_map-nil_iff f specs).0 h),
      λ h.
          (flat_map-nil_iff f specs).1
            (All_map (λ e q. fits-attr where_id graph e.1 (get e.0 vals) q) specs h),
    )

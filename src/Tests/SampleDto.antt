-- ===== src/Tests/SampleDto.antt =====
-- A small dynamic value type that meets the laws of `DtoLaws`.
use native.Mathlib.Decide.{ℕ_discrete}
use oac_tree_server.Base.{
  ℕ, ◌^◌, ◌≡◌, ◌↔◌, refl, ap, ◌∙◌, Bool, true, false, ◌&&◌, [], ◌∷◌, List, Option, none, some,
  Bytes, bytes_eq, codes, lookup, insert, arith, ltb, if◌then◌else◌, ne_of_bytes_eq, ltb→lt,
}
use oac_tree_server.External.Scalars.{
  ℤ, pos, negsuc, Scalar, ScalarType, of_bool, of_int32, of_uint32, of_uint64, of_string, type_of,
  same_type, Fits, FitsInt32, is_some,
}
use oac_tree_server.External.Dto.{Dto, DtoLaws}

-- The members of a structure are a value of the type too: `member k v rest` and `end`.
pub data Value : Type 0 where
  nothing end : Value
  leaf : Scalar → Value
  node : Bytes → Value → Value
  member : Bytes → Value → Value → Value

ℤ-discrete : Discrete ℤ
ℤ-discrete = hlevel ℕ_discrete

pub Value-discrete : Discrete Value
Value-discrete = hlevel ℕ_discrete

unfoldable pub value_eq : Value → Value → Bool
value_eq a b = elim (Value-discrete a b) [ yes _ ↦ true | no _ ↦ false ]

value_eq_iff : (a b : Value) → (value_eq a b ≡ true) ↔ (a ≡ b)
unfolding value_eq
value_eq_iff a b = ground (arith)

abbrev fits : Scalar → Bool
fits (of_bool b) = true
fits (of_int32 (pos n)) = ltb n (2 ^ 31)
fits (of_int32 (negsuc n)) = ltb n (2 ^ 31)
fits (of_uint32 n) = ltb n (2 ^ 32)
fits (of_uint64 n) = ltb n (2 ^ 64)
fits (of_string s) = true

zero_of : Scalar → Scalar
zero_of (of_bool b) = of_bool false
zero_of (of_int32 z) = of_int32 (pos 0)
zero_of (of_uint32 n) = of_uint32 0
zero_of (of_uint64 n) = of_uint64 0
zero_of (of_string s) = of_string []

unfoldable pub scalar : Scalar → Value
unfolding zero_of
scalar s = leaf (if fits s then s else zero_of s)

abbrev pub to_members : List (Bytes × Value) → Value
to_members [] = end
to_members ((k, v) ∷ m) = member k v (to_members m)

find : Bytes → Value → Option Value
find k (member j v m) = if bytes_eq j k then some v else find k m
find k _ = none

unfoldable pub field : Value → Bytes → Option Value
unfolding find
field (node n m) k = find k m
field _ k = none

unfoldable pub assign : Value → Value → Option Value
assign nothing v = some v
assign (leaf s) (leaf t) = if same_type (type_of s) (type_of t) then some (leaf t) else none
assign _ _ = none

put : Bytes → Value → Value → Value
put k v (member j w m) = if bytes_eq j k then member k v m else member j w (put k v m)
put k v _ = member k v end

abbrev put_assigned : Bytes → Bytes → Value → Option Value → Option Value
put_assigned n k m none = none
put_assigned n k m (some u) = some (node n (put k u m))

abbrev assign_found : Bytes → Bytes → Value → Value → Option Value → Option Value
assign_found n k m v none = none
assign_found n k m v (some w) = put_assigned n k m (assign w v)

unfoldable pub set_field : Value → Bytes → Value → Option Value
unfolding find put assign
set_field (node n m) k v = assign_found n k m v (find k m)
set_field _ k v = none

unfoldable pub has_type : Value → ScalarType → Bool
has_type (leaf s) t = same_type (type_of s) t && fits s
has_type _ t = false

unfoldable pub as_bool : Value → Option Bool
as_bool (leaf (of_bool b)) = some b
as_bool _ = none

unfoldable pub as_int32 : Value → Option ℤ
as_int32 (leaf (of_int32 z)) = some z
as_int32 _ = none

unfoldable pub as_uint32 : Value → Option ℕ
as_uint32 (leaf (of_uint32 n)) = some n
as_uint32 (leaf (of_uint64 n)) = if ltb n (2 ^ 32) then some n else none
as_uint32 _ = none

unfoldable pub as_uint64 : Value → Option ℕ
as_uint64 (leaf (of_uint64 n)) = some n
as_uint64 _ = none

unfoldable pub as_string : Value → Option Bytes
as_string (leaf (of_string s)) = some s
as_string _ = none

unfoldable pub is_nothing : Value → Bool
is_nothing nothing = true
is_nothing _ = false

abbrev pub option_has_type : Option Value → ScalarType → Bool
option_has_type none t = false
option_has_type (some w) t = has_type w t

abbrev pub sample_dto : Dto
sample_dto = record {
  AnyValue = Value;
  empty_value = nothing;
  is_empty_value = is_nothing;
  scalar = scalar;
  struct = λ n ms. node n (to_members ms);
  has_field = λ v k. is_some (field v k);
  field = field;
  assign = assign;
  set_field = set_field;
  has_type = has_type;
  as_bool = as_bool;
  as_int32 = as_int32;
  as_uint32 = as_uint32;
  as_uint64 = as_uint64;
  as_string = as_string;
  value_eq = value_eq;
  validate_member_type = λ v k t. option_has_type (field v k) t;
  index_field = codes "index";
}

find-to_members : (k : Bytes) (m : List (Bytes × Value)) → find k (to_members m) ≡ lookup k m
unfolding find lookup
find-to_members k [] = refl
find-to_members k ((j, v) ∷ m) = ground (arith, find-to_members k m)

put-to_members :
    (k : Bytes) (v : Value) (m : List (Bytes × Value))
    → put k v (to_members m) ≡ to_members (insert k v m)
unfolding put insert
put-to_members k v [] = refl
put-to_members k v ((j, w) ∷ m) = ground (arith, put-to_members k v m)

pub field-struct :
    (n : Bytes) (m : List (Bytes × Value)) (k : Bytes)
    → field (node n (to_members m)) k ≡ lookup k m
field-struct n m k = unfold field in find-to_members k m

set_field-struct :
    (n : Bytes) (m : List (Bytes × Value)) (k : Bytes) (v w u : Value)
    → lookup k m ≡ some w
    → assign w v ≡ some u
    → set_field (node n (to_members m)) k v ≡ some (node n (to_members (insert k u m)))
unfolding set_field
set_field-struct n m k v w u h a =
    rw (find-to_members k m ∙ h, a) (ap (λ r. some (node n r)) (put-to_members k u m))

assign-scalar :
    (s t : Scalar) → type_of s ≡ type_of t → assign (scalar s) (scalar t) ≡ some (scalar t)
unfolding assign scalar
assign-scalar s t h = ground arith

has_type-scalar : (s : Scalar) (t : ScalarType) → has_type (scalar s) t ≡ same_type (type_of s) t
unfolding has_type scalar
has_type-scalar s t = ground arith

fits→Fits : (s : Scalar) → fits s ≡ true → Fits s
fits→Fits (of_bool b) h = tt
fits→Fits (of_int32 (pos n)) h = ltb→lt n _ h
fits→Fits (of_int32 (negsuc n)) h = ltb→lt n _ h
fits→Fits (of_uint32 n) h = ltb→lt n _ h
fits→Fits (of_uint64 n) h = ltb→lt n _ h
fits→Fits (of_string s) h = tt

same_type→eq : (t u : ScalarType) → same_type t u ≡ true → t ≡ u
same_type→eq t u h = ground arith

has_type_scalar :
    (v : Value) (t : ScalarType)
    → has_type v t ≡ true
    → (s : Scalar) × (v ≡ scalar s) × (type_of s ≡ t) × Fits s
unfolding has_type scalar
has_type_scalar (leaf s) t h =
    let f : fits s ≡ true = ground arith in
    (s, rw f, same_type→eq (type_of s) t (ground arith), fits→Fits s f)
has_type_scalar _ t h = cc

validate_iff :
    (o : Option Value) (t : ScalarType)
    → (option_has_type o t ≡ true) ↔ ((w : Value) × (o ≡ some w) × (has_type w t ≡ true))
validate_iff none t = ((λ h. cc), λ (w, e, _). cc)
validate_iff (some w) t = ((λ h. (w, refl, h)), λ (u, e, h). ground arith)

as_int32-scalar : (z : ℤ) → FitsInt32 z → as_int32 (scalar (of_int32 z)) ≡ some z
unfolding as_int32 scalar
as_int32-scalar (pos n) f = ground arith
as_int32-scalar (negsuc n) f = ground arith

pub sample_dto-laws : DtoLaws sample_dto
unfolding scalar is_nothing as_bool as_int32 as_uint32 as_uint64 as_string assign bytes_eq
sample_dto-laws = record {
  is_empty_value-empty = refl;
  field-struct = λ n m k _ _. field-struct n m k;
  has_field_iff = λ v k. refl;
  set_field-struct = λ n m k v w u _ _. set_field-struct n m k v w u;
  assign-empty = λ v. refl;
  assign-scalar = assign-scalar;
  has_type-scalar = has_type-scalar;
  has_type_scalar = has_type_scalar;
  as_bool-scalar = λ b. refl;
  as_int32-scalar = λ z f. as_int32-scalar z f;
  as_uint32-scalar = λ n f. ground arith;
  as_uint64-scalar = λ n f. ground arith;
  as_string-scalar = λ s. refl;
  as_uint32-uint64 = λ n f. ground arith;
  value_eq_iff = value_eq_iff;
  validate_member_type_iff = λ v k t. validate_iff (field v k) t;
  index_field_plain = refl;
  index_field_fresh = (
    ne_of_bytes_eq _ _ refl,
    ne_of_bytes_eq _ _ refl,
    ne_of_bytes_eq _ _ refl,
    ne_of_bytes_eq _ _ refl,
  );
}

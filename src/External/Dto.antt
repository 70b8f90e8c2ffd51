-- ===== src/External/Dto.antt =====
-- sup-dto, and `ValidateMemberType` and `kIndexField` of the oac-tree core, as the program uses them.
pub mod Read
pub mod Members
pub mod Validated
use oac_tree_server.Base.{
  ℕ, ◌≡◌, ◌↔◌, Bool, true, List, Option, none, some, Bytes, codes, ◌≢◌, lookup, insert,
}
use oac_tree_server.External.Scalars.{
  ℤ, Scalar, ScalarType, of_bool, of_int32, of_uint32, of_uint64, of_string, type_of, same_type,
  Fits, FitsUint32, FitsUint64, FitsInt32, is_plain, valid_members, is_some,
}

-- `none` is an exception of the library.
pub record Dto : Type 1 where
  pub AnyValue : Type 0
  -- `AnyValue{}` and `IsEmptyValue`.
  pub empty_value : AnyValue
  pub is_empty_value : AnyValue → Bool
  -- `AnyValue{type, value}`.
  pub scalar : Scalar → AnyValue
  -- `AnyValue{members, type name}`.
  pub struct : Bytes → List (Bytes × AnyValue) → AnyValue
  -- `HasField` and `operator[]`.
  pub has_field : AnyValue → Bytes → Bool
  pub field : AnyValue → Bytes → Option AnyValue
  -- `value = right` keeps the type of a value that is not empty; `value[name] = right`.
  pub assign : AnyValue → AnyValue → Option AnyValue
  pub set_field : AnyValue → Bytes → AnyValue → Option AnyValue
  -- `GetType() == type`.
  pub has_type : AnyValue → ScalarType → Bool
  -- `As<T>`.
  pub as_bool : AnyValue → Option Bool
  pub as_int32 : AnyValue → Option ℤ
  pub as_uint32 : AnyValue → Option ℕ
  pub as_uint64 : AnyValue → Option ℕ
  pub as_string : AnyValue → Option Bytes
  pub value_eq : AnyValue → AnyValue → Bool
  pub validate_member_type : AnyValue → Bytes → ScalarType → Bool
  -- `Constants::kIndexField`.
  pub index_field : Bytes

-- The documented behaviour that the program relies on.
module _ (d : Dto) where
  open d use {
    AnyValue, empty_value, is_empty_value, scalar, struct, has_field, field, assign, set_field,
    has_type, as_bool, as_int32, as_uint32, as_uint64, as_string, value_eq, validate_member_type,
    index_field,
  }

  pub record DtoLaws : Type 0 where
    pub is_empty_value-empty : is_empty_value empty_value ≡ true
    pub field-struct :
        (n : Bytes) (ms : List (Bytes × AnyValue)) (k : Bytes)
        → valid_members ms ≡ true
        → is_plain k ≡ true
        → field (struct n ms) k ≡ lookup k ms
    pub has_field_iff : (v : AnyValue) (k : Bytes) → has_field v k ≡ is_some (field v k)
    pub set_field-struct :
        (n : Bytes) (ms : List (Bytes × AnyValue)) (k : Bytes) (v w u : AnyValue)
        → valid_members ms ≡ true
        → is_plain k ≡ true
        → lookup k ms ≡ some w
        → assign w v ≡ some u
        → set_field (struct n ms) k v ≡ some (struct n (insert k u ms))
    pub assign-empty : (v : AnyValue) → assign empty_value v ≡ some v
    pub assign-scalar :
        (s t : Scalar) → type_of s ≡ type_of t → assign (scalar s) (scalar t) ≡ some (scalar t)
    pub has_type-scalar :
        (s : Scalar) (t : ScalarType) → has_type (scalar s) t ≡ same_type (type_of s) t
    -- A value of a scalar type is a scalar of that type, in its range.
    pub has_type_scalar :
        (v : AnyValue) (t : ScalarType)
        → has_type v t ≡ true
        → (s : Scalar) × (v ≡ scalar s) × (type_of s ≡ t) × Fits s
    pub as_bool-scalar : (b : Bool) → as_bool (scalar (of_bool b)) ≡ some b
    pub as_int32-scalar : (z : ℤ) → FitsInt32 z → as_int32 (scalar (of_int32 z)) ≡ some z
    pub as_uint32-scalar : (n : ℕ) → FitsUint32 n → as_uint32 (scalar (of_uint32 n)) ≡ some n
    pub as_uint64-scalar : (n : ℕ) → FitsUint64 n → as_uint64 (scalar (of_uint64 n)) ≡ some n
    pub as_string-scalar : (s : Bytes) → as_string (scalar (of_string s)) ≡ some s
    -- A conversion between scalar types keeps the number where it fits.
    pub as_uint32-uint64 : (n : ℕ) → FitsUint32 n → as_uint32 (scalar (of_uint64 n)) ≡ some n
    pub value_eq_iff : (v w : AnyValue) → (value_eq v w ≡ true) ↔ (v ≡ w)
    pub validate_member_type_iff :
        (v : AnyValue) (k : Bytes) (t : ScalarType)
        → (validate_member_type v k t ≡ true)
          ↔ ((w : AnyValue) × (field v k ≡ some w) × (has_type w t ≡ true))
    pub index_field_plain : is_plain index_field ≡ true
    -- No other member of an entry has the name of the index.
    pub index_field_fresh :
        (codes "severity" ≢ index_field)
        × (codes "message" ≢ index_field)
        × (codes "description" ≢ index_field)
        × (codes "value" ≢ index_field)

-- ===== src/External/Scalars.antt =====
-- The host values that the program puts into an `AnyValue`, and their types.
use oac_tree_server.Base.{
  ℕ, ◌^◌, ◌<◌, ◌≡◌, Bool, true, false, not, ◌&&◌, ◌||◌, List, [], ◌∷◌, Option, none, some, Bytes,
  bytes_eq, ◌==◌, arith, refl,
}

-- `negsuc n` is -(n + 1).
pub data ℤ : Type 0 where
  pos : ℕ → ℤ
  negsuc : ℕ → ℤ

unfoldable pub int_eq : ℤ → ℤ → Bool
int_eq (pos m) (pos n) = m == n
int_eq (pos m) (negsuc n) = false
int_eq (negsuc m) (pos n) = false
int_eq (negsuc m) (negsuc n) = m == n

pub int_eq→eq : (a b : ℤ) → int_eq a b ≡ true → a ≡ b
unfolding int_eq
int_eq→eq (pos m) (pos n) h = ground arith
int_eq→eq (pos m) (negsuc n) h = cc
int_eq→eq (negsuc m) (pos n) h = cc
int_eq→eq (negsuc m) (negsuc n) h = ground arith

pub int_eq_refl : (a : ℤ) → int_eq a a ≡ true
unfolding int_eq
int_eq_refl (pos m) = ground arith
int_eq_refl (negsuc m) = ground arith

pub data ScalarType : Type 0 where
  boolean int32 uint32 uint64 string : ScalarType

pub data Scalar : Type 0 where
  of_bool : Bool → Scalar
  of_int32 : ℤ → Scalar
  of_uint32 : ℕ → Scalar
  of_uint64 : ℕ → Scalar
  of_string : Bytes → Scalar

abbrev pub type_of : Scalar → ScalarType
type_of (of_bool b) = boolean
type_of (of_int32 z) = int32
type_of (of_uint32 n) = uint32
type_of (of_uint64 n) = uint64
type_of (of_string s) = string

abbrev pub same_type : ScalarType → ScalarType → Bool
same_type boolean boolean = true
same_type int32 int32 = true
same_type uint32 uint32 = true
same_type uint64 uint64 = true
same_type string string = true
same_type _ _ = false

pub same_type_refl : (t : ScalarType) → same_type t t ≡ true
same_type_refl boolean = refl
same_type_refl int32 = refl
same_type_refl uint32 = refl
same_type_refl uint64 = refl
same_type_refl string = refl

abbrev pub FitsUint32 : ℕ → Type 0
FitsUint32 n = n < 2 ^ 32

abbrev pub FitsUint64 : ℕ → Type 0
FitsUint64 n = n < 2 ^ 64

abbrev pub FitsInt32 : ℤ → Type 0
FitsInt32 (pos n) = n < 2 ^ 31
FitsInt32 (negsuc n) = n < 2 ^ 31

-- The number is one that the machine type holds.
abbrev pub Fits : Scalar → Type 0
Fits (of_bool b) = Unit
Fits (of_int32 z) = FitsInt32 z
Fits (of_uint32 n) = FitsUint32 n
Fits (of_uint64 n) = FitsUint64 n
Fits (of_string s) = Unit

-- A member name that is no path into a nested value.
abbrev pub is_plain : Bytes → Bool
is_plain [] = true
is_plain (c ∷ s) = not (c == b'.' || c == b'[') && is_plain s

module _ {ℓ} {V : Type ℓ} where
  unfoldable pub has_name : Bytes → List (Bytes × V) → Bool
  has_name k [] = false
  has_name k ((j, v) ∷ m) = bytes_eq j k || has_name k m

  -- The members of a structure: plain names, each once.
  unfoldable pub valid_members : List (Bytes × V) → Bool
  unfolding has_name
  valid_members [] = true
  valid_members ((k, v) ∷ m) = is_plain k && not (has_name k m) && valid_members m

abbrev pub is_some {ℓ} : {A : Type ℓ} → Option A → Bool
is_some none = false
is_some (some a) = true

pub some_of_is_some {ℓ} : {A : Type ℓ} (o : Option A) → is_some o ≡ true → (a : A) × (o ≡ some a)
some_of_is_some none h = cc
some_of_is_some (some a) h = (a, refl)

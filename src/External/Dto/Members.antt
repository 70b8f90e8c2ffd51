-- ===== src/External/Dto/Members.antt =====
-- Reading, testing and writing the member at a position of a structure.
use oac_tree_server.Base.{
  ℕ, zero, suc, ◌≡◌, ap, ◌∙◌, Bool, true, false, List, [], ◌∷◌, some, arith, Bytes, bytes_eq,
  bytes_eq_iff, lookup, insert, get_elem?, set,
}
use oac_tree_server.External.Scalars.{
  ℤ, Scalar, of_bool, of_int32, of_uint32, of_uint64, of_string, type_of, same_type_refl,
  FitsUint32, FitsUint64, FitsInt32, is_plain, has_name, valid_members, is_some,
}
use oac_tree_server.External.Dto.{Dto, DtoLaws}
use oac_tree_server.External.Dto.Read.{read_bool, read_int32, read_uint32, read_uint64, read_string}

module _ {ℓ} {V : Type ℓ} where
  has_name-at :
      (m : List (Bytes × V)) (i : ℕ) (k : Bytes) (w : V)
      → get_elem? m i ≡ some (k, w)
      → has_name k m ≡ true
  unfolding has_name
  has_name-at [] i k w h = cc
  has_name-at ((j, v) ∷ m) zero k w h = ground (arith, bytes_eq_iff j k)
  has_name-at ((j, v) ∷ m) (suc i) k w h = ground (arith, has_name-at m i k w h)

  plain-at :
      (m : List (Bytes × V)) (i : ℕ) (k : Bytes) (w : V)
      → valid_members m ≡ true
      → get_elem? m i ≡ some (k, w)
      → is_plain k ≡ true
  unfolding valid_members
  plain-at [] i k w c h = cc
  plain-at ((j, v) ∷ m) zero k w c h = ground arith
  plain-at ((j, v) ∷ m) (suc i) k w c h = ground (arith, plain-at m i k w)

  -- A name of a later member is not that of the first.
  later_ne :
      (j : Bytes) (v : V) (m : List (Bytes × V)) (i : ℕ) (k : Bytes) (w : V)
      → valid_members ((j, v) ∷ m) ≡ true
      → get_elem? m i ≡ some (k, w)
      → bytes_eq j k ≡ false
  unfolding valid_members
  later_ne j v m i k w c h = ground (arith, bytes_eq_iff j k, has_name-at m i k w h)

  lookup-at :
      (m : List (Bytes × V)) (i : ℕ) (k : Bytes) (w : V)
      → valid_members m ≡ true
      → get_elem? m i ≡ some (k, w)
      → lookup k m ≡ some w
  unfolding lookup
  lookup-at [] i k w c h = cc
  lookup-at ((j, v) ∷ m) zero k w c h = ground (arith, bytes_eq_iff j k)
  lookup-at ((j, v) ∷ m) (suc i) k w c h =
      rw (later_ne j v m i k w c h) (lookup-at m i k w (unfold valid_members in ground arith) h)

  insert-at :
      (m : List (Bytes × V)) (i : ℕ) (k : Bytes) (w u : V)
      → valid_members m ≡ true
      → get_elem? m i ≡ some (k, w)
      → insert k u m ≡ set m i (k, u)
  unfolding insert
  insert-at [] i k w u c h = cc
  insert-at ((j, v) ∷ m) zero k w u c h = ground (arith, bytes_eq_iff j k)
  insert-at ((j, v) ∷ m) (suc i) k w u c h =
      rw (later_ne j v m i k w c h)
        (ap (◌∷◌ (j, v)) (insert-at m i k w u (unfold valid_members in ground arith) h))

module _ (d : Dto) (laws : DtoLaws d) where
  open d use {AnyValue, scalar, struct, field, has_field, assign, set_field, validate_member_type}

  module _ (n : Bytes) (ms : List (Bytes × AnyValue)) (valid : valid_members ms ≡ true) where
    pub field-at :
        (i : ℕ) (k : Bytes) (w : AnyValue)
        → get_elem? ms i ≡ some (k, w)
        → field (struct n ms) k ≡ some w
    field-at i k w h =
        laws.field-struct n ms k valid (plain-at ms i k w valid h) ∙ lookup-at ms i k w valid h

    pub has_field-at :
        (i : ℕ) (k : Bytes) (w : AnyValue)
        → get_elem? ms i ≡ some (k, w)
        → has_field (struct n ms) k ≡ true
    has_field-at i k w h = laws.has_field_iff _ k ∙ ap is_some (field-at i k w h)

    pub validate-at :
        (i : ℕ) (k : Bytes) (s : Scalar)
        → get_elem? ms i ≡ some (k, scalar s)
        → validate_member_type (struct n ms) k (type_of s) ≡ true
    validate-at i k s h = (laws.validate_member_type_iff _ k _).1 (
      scalar s,
      field-at i k (scalar s) h,
      laws.has_type-scalar s (type_of s) ∙ same_type_refl (type_of s),
    )

    pub set_field-at :
        (i : ℕ) (k : Bytes) (w v u : AnyValue)
        → get_elem? ms i ≡ some (k, w)
        → assign w v ≡ some u
        → set_field (struct n ms) k v ≡ some (struct n (set ms i (k, u)))
    set_field-at i k w v u h a =
        laws.set_field-struct n ms k v w u valid (plain-at ms i k w valid h)
          (lookup-at ms i k w valid h) a
        ∙ ap (λ r. some (struct n r)) (insert-at ms i k w u valid h)

    pub set_scalar-at :
        (i : ℕ) (k : Bytes) (s t : Scalar)
        → get_elem? ms i ≡ some (k, scalar s)
        → type_of s ≡ type_of t
        → set_field (struct n ms) k (scalar t) ≡ some (struct n (set ms i (k, scalar t)))
    set_scalar-at i k s t h e =
        set_field-at i k (scalar s) (scalar t) (scalar t) h (laws.assign-scalar s t e)

    pub read_uint64-at :
        (i : ℕ) (k : Bytes) (x : ℕ)
        → get_elem? ms i ≡ some (k, scalar (of_uint64 x))
        → FitsUint64 x
        → read_uint64 d (struct n ms) k ≡ some x
    unfolding read_uint64
    read_uint64-at i k x h r =
        rw (field-at i k (scalar (of_uint64 x)) h) (laws.as_uint64-scalar x r)

    pub read_uint32-at :
        (i : ℕ) (k : Bytes) (x : ℕ)
        → get_elem? ms i ≡ some (k, scalar (of_uint32 x))
        → FitsUint32 x
        → read_uint32 d (struct n ms) k ≡ some x
    unfolding read_uint32
    read_uint32-at i k x h r =
        rw (field-at i k (scalar (of_uint32 x)) h) (laws.as_uint32-scalar x r)

    pub read_int32-at :
        (i : ℕ) (k : Bytes) (x : ℤ)
        → get_elem? ms i ≡ some (k, scalar (of_int32 x))
        → FitsInt32 x
        → read_int32 d (struct n ms) k ≡ some x
    unfolding read_int32
    read_int32-at i k x h r = rw (field-at i k (scalar (of_int32 x)) h) (laws.as_int32-scalar x r)

    pub read_bool-at :
        (i : ℕ) (k : Bytes) (x : Bool)
        → get_elem? ms i ≡ some (k, scalar (of_bool x))
        → read_bool d (struct n ms) k ≡ some x
    unfolding read_bool
    read_bool-at i k x h = rw (field-at i k (scalar (of_bool x)) h) (laws.as_bool-scalar x)

    pub read_string-at :
        (i : ℕ) (k : Bytes) (x : Bytes)
        → get_elem? ms i ≡ some (k, scalar (of_string x))
        → read_string d (struct n ms) k ≡ some x
    unfolding read_string
    read_string-at i k x h = rw (field-at i k (scalar (of_string x)) h) (laws.as_string-scalar x)

-- ===== src/External/Dto/Validated.antt =====
-- A member that passed `ValidateMemberType` is read without an exception.
use oac_tree_server.Base.{ℕ, ◌≡◌, ap, ◌∙◌, Bool, true, some, arith, Bytes}
use oac_tree_server.External.Scalars.{
  ℤ, Scalar, ScalarType, of_bool, of_int32, of_uint32, of_uint64, of_string, boolean, int32, uint32,
  uint64, string, type_of, same_type_refl, Fits, FitsUint32, FitsUint64, FitsInt32,
}
use oac_tree_server.External.Dto.{Dto, DtoLaws}
use oac_tree_server.External.Dto.Read.{
  bind, read_bool, read_int32, read_uint32, read_uint64, read_string,
}

module _ (d : Dto) (laws : DtoLaws d) where
  open d use {AnyValue, scalar, struct, field, has_field, set_field, validate_member_type}

  -- A validated member is a scalar of the type, in its range.
  validated :
      (v : AnyValue) (k : Bytes) (t : ScalarType)
      → validate_member_type v k t ≡ true
      → (s : Scalar) × (field v k ≡ some (scalar s)) × (type_of s ≡ t) × Fits s
  validated v k t h =
      let (w, e, c) = (laws.validate_member_type_iff v k t).0 h in
      let (s, f, u, r) = laws.has_type_scalar w t c in (s, e ∙ ap some f, u, r)

  pub validated-uint64 :
      (v : AnyValue) (k : Bytes)
      → validate_member_type v k uint64 ≡ true
      → (n : ℕ) × (field v k ≡ some (scalar (of_uint64 n)))
        × (read_uint64 d v k ≡ some n)
        × FitsUint64 n
  unfolding read_uint64
  validated-uint64 v k h = go (validated v k uint64 h)
    where
      go :
          (s : Scalar) × (field v k ≡ some (scalar s)) × (type_of s ≡ uint64) × Fits s
          → (n : ℕ) × (field v k ≡ some (scalar (of_uint64 n)))
            × (bind (field v k) d.as_uint64 ≡ some n)
            × FitsUint64 n
      go (of_uint64 n, e, _, r) = (n, e, rw e (laws.as_uint64-scalar n r), r)
      go (_, e, u, r) = absurd (ground arith)

  pub validated-uint32 :
      (v : AnyValue) (k : Bytes)
      → validate_member_type v k uint32 ≡ true
      → (n : ℕ) × (field v k ≡ some (scalar (of_uint32 n)))
        × (read_uint32 d v k ≡ some n)
        × FitsUint32 n
  unfolding read_uint32
  validated-uint32 v k h = go (validated v k uint32 h)
    where
      go :
          (s : Scalar) × (field v k ≡ some (scalar s)) × (type_of s ≡ uint32) × Fits s
          → (n : ℕ) × (field v k ≡ some (scalar (of_uint32 n)))
            × (bind (field v k) d.as_uint32 ≡ some n)
            × FitsUint32 n
      go (of_uint32 n, e, _, r) = (n, e, rw e (laws.as_uint32-scalar n r), r)
      go (_, e, u, r) = absurd (ground arith)

  pub validated-int32 :
      (v : AnyValue) (k : Bytes)
      → validate_member_type v k int32 ≡ true
      → (n : ℤ) × (field v k ≡ some (scalar (of_int32 n)))
        × (read_int32 d v k ≡ some n)
        × FitsInt32 n
  unfolding read_int32
  validated-int32 v k h = go (validated v k int32 h)
    where
      go :
          (s : Scalar) × (field v k ≡ some (scalar s)) × (type_of s ≡ int32) × Fits s
          → (n : ℤ) × (field v k ≡ some (scalar (of_int32 n)))
            × (bind (field v k) d.as_int32 ≡ some n)
            × FitsInt32 n
      go (of_int32 n, e, _, r) = (n, e, rw e (laws.as_int32-scalar n r), r)
      go (_, e, u, r) = absurd (ground arith)

  pub validated-boolean :
      (v : AnyValue) (k : Bytes)
      → validate_member_type v k boolean ≡ true
      → (n : Bool) × (field v k ≡ some (scalar (of_bool n))) × (read_bool d v k ≡ some n)
  unfolding read_bool
  validated-boolean v k h = go (validated v k boolean h)
    where
      go :
          (s : Scalar) × (field v k ≡ some (scalar s)) × (type_of s ≡ boolean) × Fits s
          → (n : Bool) × (field v k ≡ some (scalar (of_bool n)))
            × (bind (field v k) d.as_bool ≡ some n)
      go (of_bool n, e, _, r) = (n, e, rw e (laws.as_bool-scalar n))
      go (_, e, u, r) = absurd (ground arith)

  pub validated-string :
      (v : AnyValue) (k : Bytes)
      → validate_member_type v k string ≡ true
      → (n : Bytes) × (field v k ≡ some (scalar (of_string n))) × (read_string d v k ≡ some n)
  unfolding read_string
  validated-string v k h = go (validated v k string h)
    where
      go :
          (s : Scalar) × (field v k ≡ some (scalar s)) × (type_of s ≡ string) × Fits s
          → (n : Bytes) × (field v k ≡ some (scalar (of_string n)))
            × (bind (field v k) d.as_string ≡ some n)
      go (of_string n, e, _, r) = (n, e, rw e (laws.as_string-scalar n))
      go (_, e, u, r) = absurd (ground arith)

  -- The other way round: a member that is a scalar passes the test for its type.
  pub validate_of_field :
      (v : AnyValue) (k : Bytes) (s : Scalar)
      → field v k ≡ some (scalar s)
      → validate_member_type v k (type_of s) ≡ true
  validate_of_field v k s e =
      (laws.validate_member_type_iff v k (type_of s)).1
        (scalar s, e, laws.has_type-scalar s (type_of s) ∙ same_type_refl (type_of s))

-- ===== src/Tests/SampleRpc.antt =====
-- Remote calls over the concrete value type: an input is a structure with the name of the function. A job's
-- information is a number.
use mathlib.Core.List.{append_assoc, append-nil}
use oac_tree_server.Base.{
  ℕ, zero, suc, ◌≡◌, refl, sym, ap, ◌∙◌, Bool, true, false, List, [], ◌∷◌, ◌++◌, Option, none, some,
  Bytes, bytes_eq, bytes_eq_refl, ◌||◌, codes, ◌⊎◌, inl, inr, lookup, get_elem?, if◌then◌else◌,
  arith,
}
use oac_tree_server.External.Scalars.{of_uint32}
use oac_tree_server.External.Rpc.{Rpc, RpcLaws, packed}
use oac_tree_server.Tests.SampleDto.{
  sample_dto, Value, nothing, end, leaf, node, member, scalar, field, field-struct, to_members,
  as_bool, as_string,
}

abbrev add_member : Value → Bytes → Value → Value
add_member (member j w m) k v = member j w (add_member m k v)
add_member _ k v = member k v end

abbrev pub pack : Value → Bytes → Value → Value
pack (node n m) k v = node n (add_member m k v)
pack _ k v = node [] (member k v end)

abbrev is_listed : Bytes → List Bytes → Bool
is_listed k [] = false
is_listed k (j ∷ names) = bytes_eq j k || is_listed k names

abbrev called : Value → List Bytes → ℕ → Bytes ⊎ ℕ
called (node n m) names failure = if is_listed n names then inl n else inr failure
called _ names failure = inr failure

abbrev opt_bind {ℓ} : {A : Type ℓ} → Option Value → (Value → Option A) → Option A
opt_bind none f = none
opt_bind (some v) f = f v

abbrev to_number : Value → Option ℕ
to_number (leaf (of_uint32 n)) = some n
to_number _ = none

abbrev or_nothing : Value → Value → Option Value
or_nothing nothing v = some v
or_nothing _ v = none

abbrev pub sample_rpc : Rpc sample_dto
sample_rpc = record {
  function_input = λ f. node f end;
  pack = pack;
  extract = field;
  extract_bool = λ v k. opt_bind (field v k) as_bool;
  extract_string = λ v k. opt_bind (field v k) as_string;
  called_function = called;
  try_assign_if_empty_or_convert = or_nothing;
  success = 0;
  decoding_error = 1;
  encoding_error = 2;
  generic_application_error_start = 10;
  specific_application_error_start = 20;
  protocol_result_to_string = λ n. codes "protocol";
  JobInfo = ℕ;
  number_of_instructions = λ n. n;
  job_info_to_any_value = λ n. leaf (of_uint32 n);
  to_job_info = to_number;
  is_application_protocol_request_payload = λ v. true;
  handle_application_protocol_info = λ v t n. (0, v);
  terminate = 5;
}

add_member-to_members :
    (m : List (Bytes × Value)) (k : Bytes) (v : Value)
    → add_member (to_members m) k v ≡ to_members (m ++ (k, v) ∷ [])
add_member-to_members [] k v = refl
add_member-to_members ((j, w) ∷ m) k v = ap (member j w) (add_member-to_members m k v)

packed_lem :
    (f : Bytes) (xs ms : List (Bytes × Value))
    → packed sample_dto sample_rpc (node f (to_members xs)) ms ≡ node f (to_members (xs ++ ms))
packed_lem f xs [] = ap (λ l. node f (to_members l)) (sym (append-nil xs))
packed_lem f xs ((k, v) ∷ ms) =
    ap (λ m. packed sample_dto sample_rpc (node f m) ms) (add_member-to_members xs k v)
    ∙ packed_lem f (xs ++ (k, v) ∷ []) ms
    ∙ ap (λ l. node f (to_members l)) (append_assoc xs ((k, v) ∷ []) ms)

is_listed-at :
    (names : List Bytes) (i : ℕ) (f : Bytes) → get_elem? names i ≡ some f → is_listed f names ≡ true
is_listed-at [] i f h = cc
is_listed-at (j ∷ names) zero f h =
    let e : j ≡ f = cc in
    ap (λ k. bytes_eq k f || is_listed f names) e
    ∙ ap (λ b. b || is_listed f names) (bytes_eq_refl f)
is_listed-at (j ∷ names) (suc i) f h = ground (arith, is_listed-at names i f h)

called-packed :
    (f : Bytes) (ms : List (Bytes × Value)) (names : List Bytes) (i failure : ℕ)
    → get_elem? names i ≡ some f
    → called (packed sample_dto sample_rpc (node f end) ms) names failure ≡ inl f
called-packed f ms names i failure h =
    ap (λ v. called v names failure) (packed_lem f [] ms)
    ∙ ap (λ (b : Bool). if b then inl f else inr failure) (is_listed-at names i f h)

extract-packed :
    (f : Bytes) (ms : List (Bytes × Value)) (k : Bytes) (v : Value)
    → lookup k ms ≡ some v
    → field (packed sample_dto sample_rpc (node f end) ms) k ≡ some v
extract-packed f ms k v h = ap (λ w. field w k) (packed_lem f [] ms) ∙ field-struct f ms k ∙ h

pub sample_rpc-laws : RpcLaws sample_dto sample_rpc
unfolding scalar as_bool as_string lookup
sample_rpc-laws = record {
  reserved = λ k. false;
  reserved-fields = (refl, (refl, (refl, (refl, (refl, tt)))));
  called-input = λ f ms names i failure _ _ h. called-packed f ms names i failure h;
  extract-input = λ f ms k v _ _ h. extract-packed f ms k v h;
  extract-output = λ k v.
      field-struct [] ((k, v) ∷ []) k ∙ ap (λ b. if b then some v else none) (bytes_eq_refl k);
  extract_bool_lem = λ v k b h. ap (λ o. opt_bind o as_bool) h;
  extract_string_lem = λ v k s h. ap (λ o. opt_bind o as_string) h;
  try_assign-empty = λ v. refl;
  to_job_info-job_info_to_any_value = λ n. refl;
  success-lt = omega arith;
  generic-le = omega arith;
}

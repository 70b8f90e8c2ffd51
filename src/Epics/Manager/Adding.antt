-- ===== src/Epics/Manager/Adding.antt =====
-- epics/epics_anyvalue_manager.cpp: values are added all or not at all.
use oac_tree_server.Base.{
  ℕ, ◌+◌, ◌≤◌, ◌≡◌, ◌↔◌, refl, sym, ap, ◌∙◌, subst, Bool, true, false, not, ◌&&◌, ◌||◌, List, [],
  ◌∷◌, ◌++◌, Bytes, Option, none, some, lookup, insert, lookup-insert, if◌then◌else◌, ◌==◌, length,
  bytes_eq, bytes_eq_iff, bytes_eq_refl, arith, Bool-cases, inl, inr, ◌⊎◌, length-append,
}
use oac_tree_server.External.Scalars.{is_some, has_name}
use oac_tree_server.External.Dto.{Dto}
use oac_tree_server.External.Codec.{Codec}
use oac_tree_server.External.UserInput.{UserInput}
use oac_tree_server.Epics.Manager.{
  contains, insert_name, add_names, get_names, EpicsAnyValueManager, all_unknown,
  validate_name_value_set, point_to, added, add_any_values, find_server,
}
use oac_tree_server.JobInfo.Registers.{distinct}

pub contains-append :
    (k j : Bytes) (ns : List Bytes) → contains k (ns ++ j ∷ []) ≡ (contains k ns || bytes_eq j k)
unfolding contains
contains-append k j [] = ground arith
contains-append k j (n ∷ ns) = ground (arith, contains-append k j ns)

module _ {V : Type 0} where
  contains-add_names :
      (k : Bytes) (ns : List Bytes) (vs : List (Bytes × V))
      → contains k (add_names ns vs) ≡ (contains k ns || has_name k vs)
  unfolding add_names insert_name has_name
  contains-add_names k ns [] = ground arith
  contains-add_names k ns ((j, v) ∷ vs) = ground (
    arith,
    contains-add_names k ns vs,
    contains-add_names k (ns ++ j ∷ []) vs,
    contains-append k j ns,
    bytes_eq_iff j k,
  )

  pub contains-get_names :
      (k : Bytes) (vs : List (Bytes × V)) → contains k (get_names vs) ≡ has_name k vs
  unfolding get_names contains
  contains-get_names k vs = contains-add_names k [] vs

  -- No name of the list is among the names.
  all_new : List Bytes → List (Bytes × V) → Bool
  all_new ns [] = true
  all_new ns ((k, v) ∷ vs) = not (contains k ns) && all_new ns vs

  all_new-append :
      (ns : List Bytes) (j : Bytes) (vs : List (Bytes × V))
      → all_new (ns ++ j ∷ []) vs ≡ (all_new ns vs && not (has_name j vs))
  unfolding all_new has_name
  all_new-append ns j [] = refl
  all_new-append ns j ((k, v) ∷ vs) =
      ground
        (arith, all_new-append ns j vs, contains-append k j ns, bytes_eq_iff j k, bytes_eq_iff k j)

  length-add_names :
      (ns : List Bytes) (vs : List (Bytes × V))
      → (length (add_names ns vs) ≤ length ns + length vs)
        × ((length (add_names ns vs) == length ns + length vs) ≡ (all_new ns vs && distinct vs))
  unfolding add_names insert_name all_new distinct
  length-add_names ns [] = (omega arith, ground arith)
  length-add_names ns ((j, v) ∷ vs) = elim (Bool-cases (contains j ns)) [
    | inl e ↦ let (a, b) = length-add_names ns vs in rw e (omega (arith, a), ground (arith, a))
    | inr e ↦
        let (a, b) = length-add_names (ns ++ j ∷ []) vs in
        let l = length-append ns (j ∷ []) in
        rw e (omega (arith, a, l), ground (arith, b, l, all_new-append ns j vs))
  ]

lookup-point_to :
    (i : ℕ) (ns : List Bytes) (m : List (Bytes × ℕ)) (k : Bytes)
    → lookup k (point_to i ns m) ≡ (if contains k ns then some i else lookup k m)
unfolding point_to contains
lookup-point_to i [] m k = refl
lookup-point_to i (n ∷ ns) m k =
    lookup-point_to i ns (insert n i m) k ∙ ground (arith, lookup-insert n k i m)

all_unknown-lookup :
    (m : List (Bytes × ℕ)) (ns : List Bytes) (k : Bytes)
    → all_unknown m ns ≡ true
    → contains k ns ≡ true
    → lookup k m ≡ none
unfolding all_unknown contains
all_unknown-lookup m [] k h c = cc
all_unknown-lookup m (n ∷ ns) k h c = elim (Bool-cases (bytes_eq n k)) [
  | inl e ↦
      subst (λ j. lookup j m ≡ none) ((bytes_eq_iff n k).0 e)
        (none_of_not (lookup n m) (ground arith))
  | inr e ↦ all_unknown-lookup m ns k (ground arith) (ground arith)
]
  where
    none_of_not : (o : Option ℕ) → is_some o ≡ false → o ≡ none
    none_of_not none h = refl
    none_of_not (some i) h = cc

lookup-all_unknown :
    (m : List (Bytes × ℕ)) (ns : List Bytes)
    → ((k : Bytes) → contains k ns ≡ true → lookup k m ≡ none)
    → all_unknown m ns ≡ true
unfolding all_unknown contains
lookup-all_unknown m [] h = refl
lookup-all_unknown m (n ∷ ns) h =
    let e = h n (rw (bytes_eq_refl n) refl) in
    let r = lookup-all_unknown m ns (λ k c. h k (ground (arith, c))) in rw (e, r) refl

module _ {V : Type 0} where
  all_new_nil : (vs : List (Bytes × V)) → all_new [] vs ≡ true
  unfolding all_new contains
  all_new_nil [] = refl
  all_new_nil ((k, v) ∷ vs) = ground (arith, all_new_nil vs)

  size-get_names : (vs : List (Bytes × V)) → (length (get_names vs) == length vs) ≡ distinct vs
  unfolding get_names
  size-get_names vs = ground (arith, (length-add_names [] vs).1, all_new_nil vs)

module _ (d : Dto) (c : Codec d) (u : UserInput d) where
  open d use {AnyValue}

  -- Every name is there once, and new to the manager.
  abbrev pub Addable : EpicsAnyValueManager d c u → List (Bytes × AnyValue) → Type 0
  Addable s vs =
      (distinct vs ≡ true)
      × ((k : Bytes) → has_name k vs ≡ true → lookup k s.name_server_map ≡ none)

  validate_iff :
      (s : EpicsAnyValueManager d c u) (vs : List (Bytes × AnyValue))
      → (validate_name_value_set d c u s vs ≡ true) ↔ Addable s vs
  unfolding validate_name_value_set
  validate_iff s vs =
      let e = size-get_names vs in
      (
        (λ h.
            let a : all_unknown s.name_server_map (get_names vs) ≡ true = ground (arith, e) in
            (
              ground (arith, e),
              λ k x.
                  all_unknown-lookup s.name_server_map (get_names vs) k a
                    (contains-get_names k vs ∙ x),
            )),
        λ (f, g).
            let a =
              lookup-all_unknown s.name_server_map (get_names vs)
                (λ k x. g k (sym (contains-get_names k vs) ∙ x)) in
            ground (arith, e, a),
      )

  -- What is known of the manager behind values that were added: exactly their names are found at the new server, behind all
  -- others, and every other name where it was.
  abbrev pub Holds :
      EpicsAnyValueManager d c u → List (Bytes × AnyValue) → EpicsAnyValueManager d c u → Type 0
  Holds s vs t =
      (length t.servers ≡ length s.servers + 1)
      × ((k : Bytes)
          → find_server d c u t k
            ≡ (if has_name k vs then some (length s.servers) else find_server d c u s k))

  added-Holds :
      (s : EpicsAnyValueManager d c u) (vs : List (Bytes × AnyValue))
      → Holds s vs (added d c u s vs)
  unfolding added find_server
  added-Holds s vs = (
    length-append s.servers _,
    λ k.
        lookup-point_to (length s.servers) (get_names vs) s.name_server_map k
        ∙ ap (λ b. if b then some (length s.servers) else lookup k s.name_server_map)
            (contains-get_names k vs),
  )

  pub add_any_values-Addable :
      (s : EpicsAnyValueManager d c u) (vs : List (Bytes × AnyValue))
      → Addable s vs
      → (add_any_values d c u s vs ≡ (added d c u s vs, true)) × Holds s vs (added d c u s vs)
  unfolding add_any_values
  add_any_values-Addable s vs h = (rw ((validate_iff s vs).1 h) refl, added-Holds s vs)

  -- Either the names of the values differ and are new, and then the values are added: exactly their names are found at the
  -- new server, and every other name where it was; or not, and then nothing changes.
  pub add_any_values_cases :
      (s : EpicsAnyValueManager d c u) (vs : List (Bytes × AnyValue))
      → let (t, b) = add_any_values d c u s vs in
        ((b ≡ true) × Addable s vs × Holds s vs t) ⊎ ((b ≡ false) × (¬ Addable s vs) × (t ≡ s))
  unfolding add_any_values
  add_any_values_cases s vs = elim (Bool-cases (validate_name_value_set d c u s vs)) [
    | inl e ↦ inl (rw e (refl, (validate_iff s vs).0 e, added-Holds s vs))
    | inr e ↦ inr (rw e (refl, (λ h. absurd (ground (arith, (validate_iff s vs).1 h))), refl))
  ]

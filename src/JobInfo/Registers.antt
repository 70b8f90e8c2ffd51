-- ===== src/JobInfo/Registers.antt =====
-- base/client_anyvalue_manager.cpp: names that are new to a client are all registered.
use oac_tree_server.Base.{
  ℕ, ◌++◌, ◌≡◌, refl, sym, ◌∙◌, Bool, true, false, not, ◌&&◌, List, [], ◌∷◌, none, some, Bytes, ok,
  arith, lookup, insert, lookup-insert, bytes_eq, bytes_eq_iff, bytes_eq→eq, bytes_eq_refl,
  Bool-cases, inl, inr, subst, ◌||◌, if◌then◌else◌,
}
use oac_tree_server.External.Scalars.{has_name}
use oac_tree_server.External.Dto.{Dto, DtoLaws}
use oac_tree_server.External.OacTree.{OacTree}
use oac_tree_server.Protocol.ValueName.{parse_value_name}
use oac_tree_server.JobInfo.ClientManager.{
  ClientAnyValueManager, Callback, create_callback, register, add_loop, end_add, add_any_values,
  count_instruction,
}
use oac_tree_server.JobInfo.Callbacks.{create_callback-Returns}

-- No name is twice in the list.
unfoldable pub distinct {ℓ} : {V : Type ℓ} → List (Bytes × V) → Bool
distinct [] = true
distinct ((k, v) ∷ m) = not (has_name k m) && distinct m

module _ (d : Dto) (laws : DtoLaws d) (o : OacTree d) where
  open d use {AnyValue}

  abbrev pub callback_of : Bytes → Callback d o
  callback_of name = create_callback d o (parse_value_name name)

  -- All names are new to the client, and each is there once.
  abbrev pub Fresh : ClientAnyValueManager d o → List (Bytes × AnyValue) → Type 0
  Fresh s vs =
      (distinct vs ≡ true)
      × ((name : Bytes) → has_name name vs ≡ true → lookup name s.cb_map ≡ none)

  -- The names of the list have their callbacks, and the others are as before.
  abbrev pub Registers :
      ClientAnyValueManager d o → List (Bytes × AnyValue) → ClientAnyValueManager d o → Type 0
  Registers s vs t =
      (name : Bytes)
      → lookup name t.cb_map
        ≡ (if has_name name vs then some (callback_of name) else lookup name s.cb_map)

  register_lem :
      (s : ClientAnyValueManager d o) (k : Bytes) (v : AnyValue)
      → (t : ClientAnyValueManager d o) × (register d o s k v ≡ ok t)
        × (t.cb_map ≡ insert k (callback_of k) s.cb_map)
  unfolding register
  register_lem s k v =
      let i = parse_value_name k in
      let (made, e) = create_callback-Returns d laws o v i.val_type i.idx in
      let t : ClientAnyValueManager d o = record {
        cb_map = insert k (callback_of k) s.cb_map;
        calls = s.calls ++ made;
      } in
      (t, rw e refl, refl)

  rest-Fresh :
      (s t : ClientAnyValueManager d o) (k : Bytes) (v : AnyValue) (vs : List (Bytes × AnyValue))
      → t.cb_map ≡ insert k (callback_of k) s.cb_map
      → Fresh s ((k, v) ∷ vs)
      → Fresh t vs
  unfolding distinct has_name
  rest-Fresh s t k v vs e (c, f) = (
    ground arith,
    λ name h. rw e (
        lookup-insert k name (callback_of k) s.cb_map
        ∙ ground (arith, bytes_eq_iff k name, f name, h, c)),
  )

  merge :
      (k name : Bytes) (m : List (Bytes × Callback d o)) (b : Bool)
      → (if b then some (callback_of name) else lookup name (insert k (callback_of k) m))
        ≡ (if bytes_eq k name || b then some (callback_of name) else lookup name m)
  merge k name m b = elim (Bool-cases (bytes_eq k name)) [
    | inl e ↦
        rw (lookup-insert k name (callback_of k) m, e)
          (subst
            (λ j.
              (if b then some (callback_of name) else some (callback_of j))
              ≡ some (callback_of name))
            (sym (bytes_eq→eq k name e)) (both b))
    | inr e ↦ rw (lookup-insert k name (callback_of k) m, e) refl
  ]
    where
      both :
          (b : Bool)
          → (if b then some (callback_of name) else some (callback_of name))
            ≡ some (callback_of name)
      both true = refl
      both false = refl

  add_loop_step :
      (s t : ClientAnyValueManager d o) (n : ℕ) (k : Bytes) (v : AnyValue)
      (vs : List (Bytes × AnyValue))
      → lookup k s.cb_map ≡ none
      → register d o s k v ≡ ok t
      → add_loop d o s n ((k, v) ∷ vs)
        ≡ add_loop d o t (count_instruction d o n (parse_value_name k).val_type) vs
  unfolding add_loop
  add_loop_step s t n k v vs h e = rw (add_loop, h, e) refl

  add_loop_lem :
      (s : ClientAnyValueManager d o) (n : ℕ) (vs : List (Bytes × AnyValue))
      → Fresh s vs
      → (t : ClientAnyValueManager d o) × (m : ℕ) × (add_loop d o s n vs ≡ ok (t, some m))
        × Registers s vs t
  unfolding add_loop has_name
  add_loop_lem s n [] f = (s, n, refl, λ name. refl)
  add_loop_lem s n ((k, v) ∷ vs) f =
      let (t, e, g) = register_lem s k v in
      let i = count_instruction d o n (parse_value_name k).val_type in
      let (r, m, h, q) = add_loop_lem t i vs (rest-Fresh s t k v vs g f) in
      (
        r,
        m,
        add_loop_step s t n k v vs (f.1 k (rw (bytes_eq_refl k) refl)) e ∙ h,
        λ name. q name ∙ rw g (merge k name s.cb_map (has_name name vs)),
      )

  end_add_lem :
      (t : ClientAnyValueManager d o) (m : ℕ)
      → ((end_add d o (t, some m)).1 ≡ true) × ((end_add d o (t, some m)).0.cb_map ≡ t.cb_map)
  end_add_lem t m = (refl, ground (arith))

  -- Values with new names, each once, are added without an exception, whatever they hold: the client then
  -- knows exactly these names and those from before, each with the callback of its kind and index.
  pub add_any_values-Registers :
      (s : ClientAnyValueManager d o) (vs : List (Bytes × AnyValue))
      → Fresh s vs
      → (t : ClientAnyValueManager d o) × (add_any_values d o s vs ≡ ok (t, true))
        × Registers s vs t
  unfolding add_any_values
  add_any_values-Registers s vs f =
      let (t, m, e, r) = add_loop_lem s 0 vs f in
      let (p, q) = end_add_lem t m in
      ((end_add d o (t, some m)).0, rw e refl, λ name. rw q (r name))

-- ===== src/Launch/Filenames.antt =====
-- src/app/oac-tree-server/utils.cpp: which files are run.
use oac_tree_server.Base.{
  ◌≡◌, ◌↔◌, ◌⊎◌, inl, inr, refl, sym, ap, ◌∙◌, subst, true, ◌&&◌, List, [], ◌∷◌, ◌++◌, Option, none,
  some, Bytes, ok, ◌>>=◌, or_throw, Bool-cases, arith,
}
use oac_tree_server.Protocol.Text.{ends_with_compare}
use oac_tree_server.Protocol.Text.Suffix.{ends_with_compare_sound, ends_with_compare_complete}
use oac_tree_server.Launch.{
  Arguments, DirectoryEntry, procedure_extension, procedure_files, get_procedure_filenames,
}

-- The list holds the element.
abbrev pub Holds : {A : Type 0} → A → List A → Type 0
Holds x [] = ⊥
Holds x (y ∷ ys) = (y ≡ x) ⊎ Holds x ys

Holds-append :
    {A : Type 0} (x : A) (xs ys : List A) → Holds x (xs ++ ys) ↔ (Holds x xs ⊎ Holds x ys)
Holds-append x [] ys = (λ h. inr h, λ h. elim h [ inl a ↦ absurd a | inr b ↦ b ])
Holds-append x (y ∷ xs) ys =
    let (f, g) = Holds-append x xs ys in
    (
      λ h. elim h [
        | inl e ↦ inl (inl e)
        | inr t ↦ elim (f t) [ inl a ↦ inl (inr a) | inr b ↦ inr b ]
      ],
      λ h. elim h [
        | inl a ↦ elim a [ inl e ↦ inl e | inr t ↦ inr (g (inl t)) ]
        | inr b ↦ inr (g (inr b))
      ],
    )

-- The entry is a regular file with this path, which ends in the extension.
pub record IsProcedureFile (x : Bytes) (entry : DirectoryEntry) : Type 0 where
  pub regular : entry.is_regular_file ≡ true
  pub at : entry.path ≡ x
  pub stem : Bytes
  pub named : x ≡ stem ++ procedure_extension

abbrev Lists : Bytes → List DirectoryEntry → Type 0
Lists x entries = (entry : DirectoryEntry) × Holds entry entries × IsProcedureFile x entry

selected :
    (entry : DirectoryEntry)
    → (entry.is_regular_file && ends_with_compare entry.path procedure_extension) ≡ true
    → IsProcedureFile entry.path entry
selected entry h =
    let (stem, e) = ends_with_compare_sound entry.path procedure_extension (ground arith) in
    record { regular = ground arith; at = refl; stem = stem; named = e }

selects :
    (x : Bytes) (entry : DirectoryEntry)
    → IsProcedureFile x entry
    → (entry.is_regular_file && ends_with_compare entry.path procedure_extension) ≡ true
selects x entry f =
    rw (f.regular, f.at ∙ f.named) (ends_with_compare_complete f.stem procedure_extension)

procedure_files_iff :
    (x : Bytes) (entries : List DirectoryEntry)
    → Holds x (procedure_files entries) ↔ Lists x entries
unfolding procedure_files
procedure_files_iff x [] = (λ h. absurd h, λ h. absurd h.1)
procedure_files_iff x (entry ∷ entries) =
    elim (Bool-cases (entry.is_regular_file && ends_with_compare entry.path procedure_extension)) [
      | inl e ↦ rw e (
        λ h. elim h [
          | inl q ↦ (entry, inl refl, subst (λ y. IsProcedureFile y entry) q (selected entry e))
          | inr t ↦ later (procedure_files_iff x entries).0 t
        ],
        λ (k, at, f). elim at [
          | inl q ↦ inl (subst (λ (y : DirectoryEntry). y.path ≡ x) (sym q) f.at)
          | inr t ↦ inr ((procedure_files_iff x entries).1 (k, t, f))
        ],
      )
      | inr e ↦ rw e (
        λ h. later (procedure_files_iff x entries).0 h,
        λ (k, at, f). elim at [
          | inl q ↦ cc (selects x entry (subst (IsProcedureFile x) (sym q) f), e)
          | inr t ↦ (procedure_files_iff x entries).1 (k, t, f)
        ],
      )
    ]
  where
    later :
        (Holds x (procedure_files entries) → Lists x entries)
        → Holds x (procedure_files entries)
        → Lists x (entry ∷ entries)
    later f t = let (k, at, g) = f t in (k, inr at, g)

-- The file is in the directory that the command line names.
pub record InDirectory (directory_iterator : Bytes → Option (List DirectoryEntry))
    (parser : Arguments) (x : Bytes) : Type 0 where
  pub dir : Bytes
  pub given : parser.dir ≡ some dir
  pub entries : List DirectoryEntry
  pub read : directory_iterator dir ≡ some entries
  pub listed : (entry : DirectoryEntry) × Holds entry entries × IsProcedureFile x entry

-- If the names of the procedure files are found at all, a name is among them if and only if it was given on the command line, or
-- is that of a regular file of the given directory that ends in ".xml".
pub get_procedure_filenames_iff :
    (directory_iterator : Bytes → Option (List DirectoryEntry)) (parser : Arguments)
    (names : List Bytes) (x : Bytes)
    → get_procedure_filenames directory_iterator parser ≡ ok names
    → Holds x names ↔ (InDirectory directory_iterator parser x ⊎ Holds x parser.positional_args)
unfolding get_procedure_filenames
get_procedure_filenames_iff directory_iterator parser names x h = by_dir parser.dir refl h
  where
    by_entries :
        (dir : Bytes) (o : Option (List DirectoryEntry))
        → parser.dir ≡ some dir
        → directory_iterator dir ≡ o
        → (or_throw o >>= λ entries. ok (procedure_files entries ++ parser.positional_args))
          ≡ ok names
        → Holds x names ↔ (InDirectory directory_iterator parser x ⊎ Holds x parser.positional_args)
    by_entries dir none e f g = cc
    by_entries dir (some entries) e f g =
        let q : procedure_files entries ++ parser.positional_args ≡ names = cc (g) in
        let (a, b) = Holds-append x (procedure_files entries) parser.positional_args in
        let (a', b') = procedure_files_iff x entries in
        subst
          (λ ns.
            Holds x ns ↔ (InDirectory directory_iterator parser x ⊎ Holds x parser.positional_args))
          q
          (
            λ k. elim (a k) [
              | inl y ↦
                  inl (record { dir = dir; given = e; entries = entries; read = f; listed = a' y })
              | inr y ↦ inr y
            ],
            λ k. elim k [
              | inl y ↦
                  let d : y.dir ≡ dir = cc (y.given, e) in
                  let z : y.entries ≡ entries = cc (y.read, f, ap directory_iterator d) in
                  b (inl (b' (subst (λ es. Lists x es) z y.listed)))
              | inr y ↦ b (inr y)
            ],
          )

    by_dir :
        (o : Option Bytes)
        → parser.dir ≡ o
        → elim o [
          | none ↦ ok parser.positional_args
          | some dir ↦ or_throw (directory_iterator dir) >>= λ entries.
              ok (procedure_files entries ++ parser.positional_args)
        ]
          ≡ ok names
        → Holds x names ↔ (InDirectory directory_iterator parser x ⊎ Holds x parser.positional_args)
    by_dir none e g =
        let q : parser.positional_args ≡ names = cc (g) in
        (
          λ k. inr (subst (Holds x) (sym q) k),
          λ k. elim k [ inl y ↦ cc (y.given, e) | inr y ↦ subst (Holds x) q y ],
        )
    by_dir (some dir) e g = by_entries dir (directory_iterator dir) e refl g

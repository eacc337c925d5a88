-- ===== src/Tests/Registry.antt =====
-- A registry in which a name is taken, freed and taken again.
use omnistorage.Base.{
  ℕ, bytes_eq, ◌≡◌, refl, true, false, List, [], ◌∷◌, codes, none, some, unknown_backend, wrapped,
  ok, err,
}
use omnistorage.Base.Dict
use omnistorage.Base.Sort.{mem, IsSorted, insert_sorted, sort_strings, text_le}
use omnistorage.Registry.{
  Call, register_call, unregister_call, register, unregister, perform_all, at_name, is_registered,
  open_backend, backends, names_of, registry_exact,
}

abbrev calls : List (Call ℕ)
calls =
    register_call (codes "s3") (some (λ c. ok 1))
    ∷ register_call (codes "file") (some (λ c. ok 2))
    ∷ register_call (codes "s3") (some (λ c. ok 3))
    ∷ unregister_call (codes "s3")
    ∷ register_call (codes "s3") (some (λ c. ok 4))
    ∷ []

in_order : backends (perform_all calls []) ≡ codes "file" ∷ codes "s3" ∷ []
unfolding perform_all register unregister Dict.contains Dict.lookup Dict.insert Dict.erase backends
    names_of sort_strings insert_sorted text_le bytes_eq
in_order = refl

registry_exact_example :
    let r = perform_all calls [] in
    let n = codes "s3" in
    (is_registered n r ≡ elim (at_name n calls none) [ none ↦ false | some _ ↦ true ])
    × (open_backend n [] r ≡ elim (at_name n calls none) [
      | none ↦ err (wrapped unknown_backend n)
      | some factory ↦ factory []
    ])
    × (mem n (backends r) ≡ is_registered n r)
    × IsSorted (backends r)
registry_exact_example = registry_exact calls (codes "s3") []

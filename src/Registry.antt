-- ===== src/Registry.antt =====
-- registry.go: the factories of the backends by their names. Each function holds the lock for as long
-- as it looks at the map.
use omnistorage.Base.{
  Bytes, bytes_eq, ◌≡◌, refl, ◌∙◌, arith, Bool, true, false, List, [], ◌∷◌, Option, none, some,
  unknown_backend, wrapped, Result, ok, err, panic, ◌==◌, if◌then◌else◌, Option-cases, Bool-cases,
}
use omnistorage.Base.Action.{Action}
use omnistorage.Base.Dict
use omnistorage.Base.Dict.{Dict, NodupKeys}
use omnistorage.Base.Sort.{sort_strings, mem, IsSorted, sort_strings-IsSorted, mem-sort_strings}

-- `B` is a backend, and a factory takes a configuration.
abbrev pub Factory : Type 0 → Type 0
Factory B = Dict Bytes Bytes → Result B

abbrev pub Registry : Type 0 → Type 0
Registry B = Dict Bytes (Factory B)

-- The calls that change the registry.
pub data Call (B : Type 0) : Type 0 where
  register_call : Bytes → Option (Factory B) → Call B
  unregister_call : Bytes → Call B

module _ {B : Type 0} where
  -- `Register`, where a factory may be nil.
  unfoldable pub register : Bytes → Option (Factory B) → Action (Registry B) (Unit {0})
  register name none r = (panic, r)
  register name (some factory) r =
      if Dict.contains name r then (panic, r) else (ok tt, Dict.insert name factory r)

  -- `Open`
  unfoldable pub open_backend : Bytes → Dict Bytes Bytes → Registry B → Result B
  open_backend name config r = elim (Dict.lookup name r) [
    | none ↦ err (wrapped unknown_backend name)
    | some factory ↦ factory config
  ]

  -- The loop of `Backends` over the map, in the order in which it is visited.
  unfoldable pub names_of : Registry B → List Bytes
  names_of [] = []
  names_of ((name, _) ∷ r) = name ∷ names_of r

  -- `Backends`
  unfoldable pub backends : Registry B → List Bytes
  unfolding names_of
  backends r = sort_strings (names_of r)

  -- `IsRegistered`
  unfoldable pub is_registered : Bytes → Registry B → Bool
  is_registered name r = Dict.contains name r

  -- `Unregister`
  unfoldable pub unregister : Bytes → Registry B → Bool × Registry B
  unregister name r = if Dict.contains name r then (true, Dict.erase name r) else (false, r)

  mem-names_of : (name : Bytes) (r : Registry B) → mem name (names_of r) ≡ Dict.contains name r
  unfolding names_of mem Dict.contains Dict.lookup
  mem-names_of name [] = refl
  mem-names_of name ((n, _) ∷ r) = ground (arith, mem-names_of name r)

  unfoldable pub perform : Call B → Registry B → Registry B
  unfolding register unregister
  perform (register_call name factory) r = (register name factory r).1
  perform (unregister_call name) r = (unregister name r).1

  unfoldable pub perform_all : List (Call B) → Registry B → Registry B
  unfolding perform
  perform_all [] r = r
  perform_all (c ∷ cs) r = perform_all cs (perform c r)

  -- The abstract view: what is at each name. A name that is taken keeps its factory until it is
  -- unregistered.
  unfoldable pub at_name : Bytes → List (Call B) → Option (Factory B) → Option (Factory B)
  at_name n [] o = o
  at_name n (register_call name factory ∷ cs) o =
      at_name n cs (if n == name then elim o [ none ↦ factory | some f ↦ some f ] else o)
  at_name n (unregister_call name ∷ cs) o = at_name n cs (if n == name then none else o)

  lookup-perform :
      (n : Bytes) (cs : List (Call B)) (r : Registry B)
      → Dict.lookup n (perform_all cs r) ≡ at_name n cs (Dict.lookup n r)
  unfolding perform_all at_name Dict.contains
  lookup-perform n [] r = refl
  lookup-perform n (register_call name none ∷ cs) r =
      ground (arith, lookup-perform n cs r, Bool-cases (n == name), Option-cases (Dict.lookup n r))
  lookup-perform n (register_call name (some f) ∷ cs) r = ground (
    arith,
    lookup-perform n cs r,
    lookup-perform n cs (Dict.insert name f r),
    Dict.lookup-insert n name f r,
    Bool-cases (n == name),
    Option-cases (Dict.lookup name r),
  )
  lookup-perform n (unregister_call name ∷ cs) r = ground (
    arith,
    lookup-perform n cs r,
    lookup-perform n cs (Dict.erase name r),
    Dict.lookup-erase n name r,
    Bool-cases (n == name),
    Option-cases (Dict.lookup name r),
  )

  -- After any calls of `Register` and `Unregister` on an empty registry: a name is registered exactly
  -- if it has a factory that no later `Unregister` has taken, which is the first since then that is
  -- not nil; `Open` calls that factory, or says that the backend is unknown; and `Backends` has the
  -- registered names, sorted.
  pub registry_exact :
      (cs : List (Call B)) (n : Bytes) (config : Dict Bytes Bytes)
      → let r = perform_all cs [] in
        (is_registered n r ≡ elim (at_name n cs none) [ none ↦ false | some _ ↦ true ])
        × (open_backend n config r ≡ elim (at_name n cs none) [
          | none ↦ err (wrapped unknown_backend n)
          | some factory ↦ factory config
        ])
        × (mem n (backends r) ≡ is_registered n r)
        × IsSorted (backends r)
  unfolding is_registered open_backend backends Dict.contains Dict.lookup
  registry_exact cs n config =
      let r = perform_all cs [] in
      let at : Dict.lookup n r ≡ at_name n cs none = lookup-perform n cs [] in
      (
        ground (arith, at),
        ground (arith, at),
        mem-sort_strings n (names_of r) ∙ mem-names_of n r,
        sort_strings-IsSorted (names_of r),
      )

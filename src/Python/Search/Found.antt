-- ===== src/Python/Search/Found.antt =====
-- What the search for the API DLL in bindings/python/plcsim_connector/__init__.py finds.
use plcsim_connector.Common.{
  ◌≡◌, refl, ap, Bool, true, false, Option, none, some, List, [], ◌∷◌, ◌++◌, All, Bool-cases, inl,
  inr, is_empty, Bytes,
}
use plcsim_connector.Python.Search.{
  Lookup, has_dll, first_found, candidate_api_dll_dirs, autodetect_api_dll_dir,
}

module _ (api_version : Bytes) (registry : Lookup) (join : Bytes → Bytes → Bytes)
    (is_file : Bytes → Bool) where
  abbrev pub Lacks : Bytes → Type 0
  Lacks dir = has_dll api_version registry join is_file dir ≡ false

  -- The first of a list that has the DLL, with what stands before and after it.
  pub record IsFirst (dirs : List Bytes) (dir : Bytes) : Type 0 where
    pub before : List Bytes
    pub after : List Bytes
    pub splits : dirs ≡ before ++ (dir ∷ after)
    pub has : has_dll api_version registry join is_file dir ≡ true
    pub lack : All Lacks before

  abbrev pub Finds : List Bytes → Option Bytes → Type 0
  Finds dirs none = All Lacks dirs
  Finds dirs (some dir) = IsFirst dirs dir

  behind :
      (dir : Bytes) (dirs : List Bytes) (o : Option Bytes)
      → Lacks dir
      → Finds dirs o
      → Finds (dir ∷ dirs) o
  behind dir dirs none lacks h = (lacks, h)
  behind dir dirs (some found) lacks h = record {
    before = dir ∷ h.before;
    after = h.after;
    splits = ap (λ ds. dir ∷ ds) h.splits;
    has = h.has;
    lack = (lacks, h.lack);
  }

  first_found-Finds :
      (dirs : List Bytes) → Finds dirs (first_found api_version registry join is_file dirs)
  unfolding first_found
  first_found-Finds [] = tt
  first_found-Finds (dir ∷ dirs) =
      elim (Bool-cases (has_dll api_version registry join is_file dir)) [
        | inl there ↦
            rw there (record { before = []; after = dirs; splits = refl; has = there; lack = tt })
        | inr gone ↦ rw gone (behind dir dirs _ gone (first_found-Finds dirs))
      ]

  -- With an API version in the build, the directory that the automatic search finds is the first of the
  -- candidates that has the DLL, and it finds none only if none of the candidates has it.
  pub autodetect_api_dll_dir-Finds :
      is_empty api_version ≡ false
      → Finds
          (candidate_api_dll_dirs api_version registry join is_file)
          (autodetect_api_dll_dir api_version registry join is_file)
  unfolding autodetect_api_dll_dir
  autodetect_api_dll_dir-Finds known = rw known (first_found-Finds _)

-- ===== src/Python/Search.antt =====
-- The search for the API DLL in bindings/python/plcsim_connector/__init__.py. `__api_version__`, the
-- registry, os.path.join and os.path.isfile are parameters.
pub mod Found
use plcsim_connector.Common.{
  ◌==◌, ◌&&◌, Bool, true, false, Option, none, some, List, [], ◌∷◌, ◌++◌, if◌then◌else◌, is_empty,
  Bytes, codes,
}
use plcsim_connector.Diagnostics.{api_dll_name}

-- The answer of the registry: the value `Path`, or the text of the OSError.
pub data Lookup : Type 0 where
  install_path : Bytes → Lookup
  lookup_failed : Bytes → Lookup

-- _DEFAULT_INSTALL_DIR and _REGISTRY_KEY
abbrev pub default_install_dir : Bytes
default_install_dir = codes "C:\\Program Files (x86)\\Common Files\\Siemens\\PLCSIMADV"

abbrev registry_key : Bytes
registry_key = codes "SOFTWARE\\Wow6432Node\\Siemens\\Shared Tools\\PLCSIMADV_SimRT"

-- A report: its lines, which are joined by line ends.
abbrev pub Report : Type 0
Report = List Bytes

-- `candidate == found`
abbrev pub same_text : Bytes → Bytes → Bool
same_text [] [] = true
same_text [] (d ∷ t) = false
same_text (c ∷ s) [] = false
same_text (c ∷ s) (d ∷ t) = c == d && same_text s t

module _ (api_version : Bytes) (registry : Lookup) (join : Bytes → Bytes → Bytes)
    (is_file : Bytes → Bool) where
  -- `os.path.join(dir, "API", __api_version__)`
  abbrev pub api_dir : Bytes → Bytes
  api_dir dir = join (join dir (codes "API")) api_version

  -- An empty install path counts as none.
  abbrev pub registry_dirs : Lookup → List Bytes
  registry_dirs (lookup_failed error) = []
  registry_dirs (install_path path) = if is_empty path then [] else api_dir path ∷ []

  -- _candidate_api_dll_dirs
  pub candidate_api_dll_dirs : List Bytes
  candidate_api_dll_dirs = registry_dirs registry ++ (api_dir default_install_dir ∷ [])

  abbrev pub has_dll : Bytes → Bool
  has_dll candidate = is_file (join candidate api_dll_name)

  -- The loop over the candidates.
  pub first_found : List Bytes → Option Bytes
  first_found [] = none
  first_found (candidate ∷ rest) = if has_dll candidate then some candidate else first_found rest

  -- _autodetect_api_dll_dir, without its cache
  pub autodetect_api_dll_dir : Option Bytes
  autodetect_api_dll_dir = if is_empty api_version then none else first_found candidate_api_dll_dirs

  -- describe_api_dll_search: the line on the registry, and one line for each candidate.
  abbrev registry_line : Lookup → Bytes
  registry_line (lookup_failed error) =
      codes "registry lookup failed (" ++ (registry_key ++ (codes "): " ++ error))
  registry_line (install_path path) =
      if is_empty path
      then codes "registry lookup failed (" ++ (registry_key ++ codes "): None")
      else codes "registry install path (" ++ (registry_key ++ (codes "): " ++ path))

  abbrev pub is_found : Option Bytes → Bytes → Bool
  is_found none candidate = false
  is_found (some found) candidate = same_text candidate found

  abbrev pub candidate_line : Option Bytes → Bytes → Bytes
  candidate_line found candidate =
      codes "  ["
      ++ ((if is_found found candidate then codes "FOUND" else codes "not found")
          ++ (codes "] " ++ join candidate api_dll_name))

  abbrev pub candidate_lines : Option Bytes → List Bytes → Report
  candidate_lines found [] = []
  candidate_lines found (candidate ∷ rest) =
      candidate_line found candidate ∷ candidate_lines found rest

  abbrev pub fallback_lines : Option Bytes → Report
  fallback_lines (some found) = []
  fallback_lines none =
      codes
        "no candidate had the DLL; RuntimeManager() falls back to InitializeApi()'s own search (app folder, then the same registry path)"
      ∷ []

  pub describe_api_dll_search : Report
  describe_api_dll_search =
      (codes "built against S7-PLCSIM Advanced API version: "
        ++ (if is_empty api_version then codes "(unknown)" else api_version))
      ∷ (if is_empty api_version
          then codes "no API version baked into this build; auto-detection is disabled" ∷ []
          else registry_line registry
            ∷ (candidate_lines autodetect_api_dll_dir candidate_api_dll_dirs
                ++ fallback_lines autodetect_api_dll_dir))

-- ===== src/Diagnostics/Balance.antt =====
-- The diagnostics of src/SdkBridge.cpp give back what they take from Windows.
use plcsim_connector.Common.{
  ℕ, ◌+◌, ◌≡◌, refl, ap, ◌∙◌, Bool, true, false, Option, none, some, Bytes, arith, Bool-cases, inl,
  inr, ◌==◌,
}
use plcsim_connector.Sdk.{Sdk, Wide}
use plcsim_connector.Diagnostics.{
  api_dll_name, path_append, free_buffer, win32_error_message, probe_result, probe_dll_load,
  elevation_of, is_process_elevated,
}

abbrev pub one_if : Bool → ℕ
one_if true = 1
one_if false = 0

abbrev pub one_in : {A : Type 0} → Option A → ℕ
one_in none = 0
one_in (some a) = 1

-- How many buffers, libraries and tokens are in use: Windows documents which calls take one, and which
-- give one back.
pub record IsLedger {S : Type 0} (sdk : Sdk S) (in_use : S → ℕ) : Type 0 where
  pub formatting :
      (code : ℕ) (s : S)
      → in_use (sdk.format_message code s).1 ≡ one_in (sdk.format_message code s).0.1 + in_use s
  pub freeing :
      (buffer : Wide) (s : S) (n : ℕ) → in_use s ≡ 1 + n → in_use (sdk.local_free buffer s) ≡ n
  pub loading :
      (path : Bytes) (s : S)
      → in_use (sdk.load_library path s).1 ≡ one_in (sdk.load_library path s).0 + in_use s
  pub unloading :
      (handle : ℕ) (s : S) (n : ℕ) → in_use s ≡ 1 + n → in_use (sdk.free_library handle s) ≡ n
  pub opening :
      (s : S)
      → in_use (sdk.open_process_token s).1 ≡ one_if (sdk.open_process_token s).0.0 + in_use s
  pub querying : (token : ℕ) (s : S) → in_use (sdk.get_token_elevation token s).1 ≡ in_use s
  pub closing :
      (token : ℕ) (s : S) (n : ℕ) → in_use s ≡ 1 + n → in_use (sdk.close_handle token s) ≡ n
  pub resetting : (code : ℕ) (s : S) → in_use (sdk.set_last_error code s) ≡ in_use s
  pub initializing : (path : Option Wide) (s : S) → in_use (sdk.initialize_api path s).1 ≡ in_use s

module _ {S : Type 0} (sdk : Sdk S) (in_use : S → ℕ) where
  free_buffer-balanced :
      (buffer : Option Wide) (s : S) (n : ℕ)
      → IsLedger sdk in_use
      → in_use s ≡ one_in buffer + n
      → in_use (free_buffer sdk buffer s) ≡ n
  unfolding free_buffer
  free_buffer-balanced none s n l e = omega (arith, e)
  free_buffer-balanced (some b) s n l e = l.freeing b s n e

  pub error_message-balanced :
      (code : ℕ) (s : S)
      → IsLedger sdk in_use
      → in_use (win32_error_message sdk code s).1 ≡ in_use s
  unfolding win32_error_message
  error_message-balanced code s l = elim (Bool-cases (code == 0)) [
    | inl none_set ↦ rw none_set refl
    | inr set ↦ rw set (free_buffer-balanced _ _ (in_use s) l (l.formatting code s))
  ]

  probed-balanced :
      (path : Bytes) (r : Option ℕ × S) (n : ℕ)
      → IsLedger sdk in_use
      → in_use r.1 ≡ one_in r.0 + n
      → in_use (probe_result sdk path r).1 ≡ n
  unfolding probe_result
  probed-balanced path (some handle, s) n l e = l.unloading handle s n e
  probed-balanced path (none, s) n l e =
      error_message-balanced (sdk.get_last_error s) s l ∙ omega (arith, e)

  pub probe-balanced :
      (dll_dir : Option Bytes) (s : S)
      → IsLedger sdk in_use
      → in_use (probe_dll_load sdk dll_dir s).1 ≡ in_use s
  unfolding probe_dll_load
  probe-balanced none s l = refl
  probe-balanced (some dll_dir) s l =
      let path = path_append dll_dir api_dll_name in
      probed-balanced path (sdk.load_library path (sdk.set_last_error 0 s)) (in_use s) l (
        l.loading path (sdk.set_last_error 0 s)
        ∙ ap (λ n. one_in (sdk.load_library path (sdk.set_last_error 0 s)).0 + n) (l.resetting 0 s))

  elevation-balanced :
      (r : (Bool × ℕ) × S) (n : ℕ)
      → IsLedger sdk in_use
      → in_use r.1 ≡ one_if r.0.0 + n
      → in_use (elevation_of sdk r).1 ≡ n
  unfolding elevation_of
  elevation-balanced ((false, token), s) n l e = omega (arith, e)
  elevation-balanced ((true, token), s) n l e = l.closing token _ n (l.querying token s ∙ e)

  pub elevated-balanced :
      (s : S) → IsLedger sdk in_use → in_use (is_process_elevated sdk s).1 ≡ in_use s
  unfolding is_process_elevated
  elevated-balanced s l = elevation-balanced (sdk.open_process_token s) (in_use s) l (l.opening s)

-- ===== src/RuntimeManager/Working.antt =====
-- The constructor, the version and `attach` of src/SdkBridge.cpp where nothing stands in the way: the API
-- loads, a Runtime Manager runs, and the instance is registered.
use plcsim_connector.Common.{ℕ, ◌≡◌, refl, true, false, none, some, Bytes}
use plcsim_connector.Common.Int.{ℤ, pos, increment, ◌==ℤ◌}
use plcsim_connector.ApiHandle
use plcsim_connector.ApiHandle.{
  World, ApiHandle, acquire, initialize, wide_path, add_ref, copy, assign, manager_of,
}
use plcsim_connector.Bridge.{check, succeeded}
use plcsim_connector.Error.{returned}
use plcsim_connector.Instance.{Impl, no_sizes}
use plcsim_connector.Sdk.{Sdk}
use plcsim_connector.Text.{to_wide}
use plcsim_connector.RuntimeManager.{
  construct, require_available, keep_available, version, version_text, manager, not_null, attach,
  attach_name, new_impl, try_attach, caught,
}

abbrev pub owning : ApiHandle
owning = record { owns = true }

abbrev pub loaded : {S : Type 0} → ℤ → ℕ → S → World S
loaded count m s = record { refcount = count; manager = some m; external = s }

-- A process in which nothing owns the API.
abbrev pub unloaded : {S : Type 0} → S → World S
unloaded s = record { refcount = pos 0; manager = none; external = s }

-- What `attach` returns.
abbrev pub new_instance : ℕ → ℤ → Bytes → Impl
new_instance raw id name = record {
  api = owning;
  raw = some raw;
  id = id;
  name = name;
  interface_removed = false;
  area_sizes = no_sizes;
}

module _ {S : Type 0} (sdk : Sdk S) (name_max : ℕ) (m : ℕ) (s : S) where
  pub construct-first :
      sdk.set_last_error 0 s ≡ s
      → sdk.initialize_api none s ≡ ((pos 0, some m), s)
      → sdk.is_runtime_manager_available m s ≡ (true, s)
      → construct sdk name_max none (unloaded s) ≡ (returned owning, loaded (pos 1) m s)
  unfolding construct acquire initialize wide_path add_ref assign require_available keep_available
      manager_of ApiHandle.release succeeded increment ◌==ℤ◌
  construct-first quiet loads available = rw (quiet, loads, available) refl

  pub version_lem :
      (count : ℤ) (packed : ℕ)
      → sdk.get_version m s ≡ (packed, s)
      → version sdk name_max (some owning) (loaded count m s)
        ≡ (returned (version_text packed), loaded count m s)
  unfolding version manager not_null manager_of
  version_lem count packed asked = rw asked refl

  pub attach-new :
      (count : ℤ) (text : Bytes) (raw : ℕ) (id : ℤ)
      → sdk.create_interface_by_name m (to_wide sdk text) s ≡ ((pos 0, some raw), s)
      → (pos 0 ==ℤ sdk.codes.does_not_exist) ≡ false
      → sdk.get_id raw s ≡ (id, s)
      → attach sdk name_max text (some owning) (loaded count m s)
        ≡ (returned (new_instance raw id text), loaded (increment count) m s)
  unfolding attach manager not_null manager_of check succeeded attach_name new_impl copy assign
      ApiHandle.release
  attach-new count text raw id created known numbered = rw (created, known, numbered) refl

  pub try_attach-new :
      (count : ℤ) (text : Bytes) (raw : ℕ) (id : ℤ)
      → sdk.create_interface_by_name m (to_wide sdk text) s ≡ ((pos 0, some raw), s)
      → (pos 0 ==ℤ sdk.codes.does_not_exist) ≡ false
      → sdk.get_id raw s ≡ (id, s)
      → try_attach sdk name_max text (some owning) (loaded count m s)
        ≡ (returned (some (new_instance raw id text)), loaded (increment count) m s)
  unfolding try_attach caught
  try_attach-new count text raw id created known numbered =
      rw (attach-new count text raw id created known numbered) refl

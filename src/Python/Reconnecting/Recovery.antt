-- ===== src/Python/Reconnecting/Recovery.antt =====
-- `ReconnectingInstance._call` of bindings/python/plcsim_connector/__init__.py where the Runtime Manager has
-- dropped the interface, down to the calls of the SDK.
use plcsim_connector.Common.{ℕ, ◌≡◌, refl, true, false, none, some}
use plcsim_connector.Common.Int.{ℤ, pos, ◌==ℤ◌}
use plcsim_connector.ApiHandle
use plcsim_connector.ApiHandle.{manager_of}
use plcsim_connector.Instance.Methods
use plcsim_connector.Instance.Methods.{connection_of, ask_manager}
use plcsim_connector.Python.Reconnecting.{Session, Settings, is_connected, connected_if}
use plcsim_connector.Python.Waiting.{Environment}
use plcsim_connector.RuntimeManager
use plcsim_connector.RuntimeManager.Working.{owning, loaded, unloaded, new_instance}
use plcsim_connector.Sdk.{Sdk}
use plcsim_connector.Text.{to_wide}

module _ {S : Type 0} (sdk : Sdk S) (env : Environment S) (settings : Settings S) where
  -- A session with nobody else on the API, behind the attachment of an interface.
  abbrev pub attached_session : ℕ → ℕ → ℤ → ℕ → S → Session S
  attached_session m raw id time s = record {
    instance = some (new_instance raw id settings.name);
    runtime = some owning;
    time = time;
    world = loaded (pos 2) m s;
  }

  -- In the state `s` the API loads, a Runtime Manager runs, and the instance is registered; asking for
  -- that changes nothing.
  pub record IsBack (m raw : ℕ) (id : ℤ) (s : S) : Type 0 where
    pub quiet : sdk.set_last_error 0 s ≡ s
    pub loads : sdk.initialize_api none s ≡ ((pos 0, some m), s)
    pub available : sdk.is_runtime_manager_available m s ≡ (true, s)
    pub created :
        sdk.create_interface_by_name m (to_wide sdk settings.name) s ≡ ((pos 0, some raw), s)
    pub known : (pos 0 ==ℤ sdk.codes.does_not_exist) ≡ false
    pub numbered : sdk.get_id raw s ≡ (id, s)

  -- The state of the SDK behind `_drop`: the interface is destroyed, and the API freed.
  abbrev pub left : ℕ → ℕ → S → S
  left m raw s = sdk.shutdown_and_free_api m (sdk.destroy_interface raw s)

  module _ (m raw : ℕ) (id : ℤ) (time : ℕ) (s : S) where
    pub is_attached :
        sdk.is_runtime_manager_available m s ≡ (true, s)
        → is_connected sdk env settings (attached_session m raw id time s)
          ≡ (true, attached_session m raw id time s)
    unfolding is_connected connected_if Methods.is_connected connection_of ask_manager manager_of
    is_attached available = rw available refl

    -- The session behind the call that has found the interface dropped.
    abbrev lost_session : Session S
    lost_session = record (attached_session m raw id time s) {
      instance = some (record (new_instance raw id settings.name) { interface_removed = true });
    }

    abbrev empty_session : Session S
    empty_session = record {
      instance = none;
      runtime = none;
      time = time;
      world = unloaded (left m raw s);
    }

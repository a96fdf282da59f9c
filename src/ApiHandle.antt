-- ===== src/ApiHandle.antt =====
-- src/SdkBridge.cpp: the process-wide lifetime of the API, `g_api_refcount`, `g_api_manager` and the
-- class `ApiHandle`. Every function that changes them holds `g_api_mutex` from its first access to its
-- last, and is one step on the state here; Threads has the mutex and the single accesses. The count is
-- an unbounded integer: an `int` would overflow with 2^31 handles.
pub mod Process
pub mod Refcount
pub mod Resources
pub mod Tests
pub mod Threads
use plcsim_connector.Common.{
  ℕ, Bool, true, false, not, ◌||◌, Option, none, some, ◌++◌, if◌then◌else◌, Bytes, codes,
}
use plcsim_connector.Common.Int.{ℤ, pos, increment, decrement, ◌==ℤ◌}
use plcsim_connector.Bridge.{succeeded, throw_error}
use plcsim_connector.Diagnostics.{win32_error_message, probe_dll_load, is_process_elevated}
use plcsim_connector.Error.{returned}
use plcsim_connector.Prog.{Prog, ◌>>◌}
use plcsim_connector.Sdk.{Sdk, Wide}
use plcsim_connector.Text.{to_wide}

-- The state that all objects of the process share: the two globals, and what is behind the SDK.
pub record World (S : Type 0) : Type 0 where
  pub refcount : ℤ
  pub manager : Option ℕ
  pub external : S

pub record ApiHandle : Type 0 where
  pub owns : Bool

-- `ApiHandle() = default`, and what a handle that was moved from holds.
abbrev pub unowned : ApiHandle
unowned = record { owns = false }

abbrev pub is_null : Option ℕ → Bool
is_null none = true
is_null (some m) = false

-- The end of `acquire`: `++g_api_refcount; return ApiHandle{true};`
unfoldable pub add_ref : {S : Type 0} → Prog (World S) ApiHandle
add_ref w = (returned (record { owns = true }), record w { refcount = increment w.refcount })

-- The copy constructor.
unfoldable pub copy : {S : Type 0} → ApiHandle → World S → ApiHandle × World S
copy other w = (other, if other.owns then record w { refcount = increment w.refcount } else w)

-- The move constructor: the new handle, and what it leaves of the other one.
unfoldable pub move : ApiHandle → ApiHandle × ApiHandle
move other = (other, unowned)

-- `manager()`
unfoldable pub manager_of : {S : Type 0} → ApiHandle → World S → Option ℕ
manager_of h w = if h.owns then w.manager else none

module _ {S : Type 0} (sdk : Sdk S) where
  unfoldable pub wide_path : Option Bytes → Option Wide
  wide_path none = none
  wide_path (some dll_dir) = some (to_wide sdk dll_dir)

  -- The error of `acquire`, with its diagnostics.
  unfoldable pub initialization_failed : Option Bytes → ℤ → Prog (World S) (Unit {0})
  initialization_failed dll_dir result w =
      let (last, s1) = win32_error_message sdk (sdk.get_last_error w.external) w.external in
      let (probe, s2) = probe_dll_load sdk dll_dir s1 in
      let (elevated, s3) = is_process_elevated sdk s2 in
      throw_error sdk result (codes "InitializeApi")
        (codes "GetLastError() after InitializeApi(): "
          ++ (last
              ++ (codes "; direct LoadLibraryW probe: "
                  ++ (probe
                      ++ (codes "; this process elevated: "
                          ++ ((if elevated then codes "yes" else codes "no")
                              ++ codes
                                  " (a non-elevated caller cannot reach a Runtime Manager that was started elevated - e.g. required for TCP/IP single adapter / OPC UA mode - match elevation on both sides)"))))))
        (record w { external = s3 })

  -- The branch of `acquire` for a count of 0.
  unfoldable pub initialize : Option Bytes → Prog (World S) (Unit {0})
  initialize dll_dir w =
      let ((result, manager), s) =
        sdk.initialize_api (wide_path dll_dir) (sdk.set_last_error 0 w.external) in
      if not (succeeded result) || is_null manager
      then initialization_failed dll_dir result (record w { external = s })
      else (returned tt, record w { manager = manager; external = s })

  unfoldable pub acquire : Option Bytes → Prog (World S) ApiHandle
  acquire dll_dir w = if w.refcount ==ℤ pos 0 then (initialize dll_dir >> add_ref) w else add_ref w

  -- `ShutdownAndFreeApi`, where there is a manager.
  unfoldable pub shut_down : Option ℕ → World S → World S
  shut_down none w = w
  shut_down (some m) w = record w {
    manager = none;
    external = sdk.shutdown_and_free_api m w.external;
  }

  unfoldable pub drop_ref : World S → World S
  drop_ref w =
      let w' = record w { refcount = decrement w.refcount } in
      if w'.refcount ==ℤ pos 0 then shut_down w.manager w' else w'

  -- `release`, which the destructor calls too.
  unfoldable pub release : ApiHandle → World S → ApiHandle × World S
  release h w = if not h.owns then (h, w) else (unowned, drop_ref w)

  -- `operator=`: its argument, made by the copy or the move constructor, takes this handle's part and
  -- is destroyed.
  unfoldable pub assign : ApiHandle → ApiHandle → World S → ApiHandle × World S
  assign this other w = (other, (release this w).1)

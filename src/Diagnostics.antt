-- ===== src/Diagnostics.antt =====
-- src/SdkBridge.cpp: what Win32 says about a failed `InitializeApi`. A call without effect in the
-- process, such as `GetCurrentProcess`, is left out.
pub mod Balance
use plcsim_connector.Common.{
  ℕ, Bool, true, false, ◌&&◌, ◌||◌, Option, none, some, [], ◌∷◌, ◌++◌, reverse, if◌then◌else◌, ltb,
  ◌==◌, is_empty, Bytes, codes,
}
use plcsim_connector.Sdk.{Sdk, Wide}
use plcsim_connector.Std.Decimal
use plcsim_connector.Text.{to_utf8}

-- `kApiDllName` of a 64-bit build.
unfoldable pub api_dll_name : Bytes
api_dll_name = codes "Siemens.Simatic.Simulation.Runtime.Api.x64.dll"

-- `while (!text.empty() && (text.back() == '\n' || text.back() == '\r')) text.pop_back();`, over
-- the text from its end.
drop_line_ends : Bytes → Bytes
drop_line_ends [] = []
drop_line_ends (c ∷ s) = if c == b'\n' || c == b'\r' then drop_line_ends s else c ∷ s

-- `path / name` of std::filesystem on Windows, for a plain file name: a separator goes between them
-- if the path has a file name.
ends_in_name : Bytes → Bool
ends_in_name [] = false
ends_in_name (c ∷ s) = if c == b'/' || (c == b'\\' || c == b':') then false else true

unfoldable pub path_append : Bytes → Bytes → Bytes
unfolding ends_in_name
path_append path name = if ends_in_name (reverse path) then path ++ b'\\' ∷ name else path ++ name

module _ {S : Type 0} (sdk : Sdk S) where
  -- The text of `FormatMessageW`, where it gave one.
  system_text : ℕ → Option Wide → Bytes
  system_text len none = []
  system_text len (some buffer) =
      if ltb 0 len then reverse (drop_line_ends (reverse (to_utf8 sdk (some buffer)))) else []

  free_buffer : Option Wide → S → S
  free_buffer none s = s
  free_buffer (some buffer) s = sdk.local_free buffer s

  unfoldable pub win32_error_message : ℕ → S → Bytes × S
  unfolding system_text free_buffer drop_line_ends
  win32_error_message code s =
      let ((len, buffer), s') = sdk.format_message code s in
      let text = system_text len buffer in
      if code == 0 then (codes "0 (no error)", s) else (
        Decimal.to_string code
            ++ (if is_empty text
                then codes " (unknown error)"
                else codes " (" ++ (text ++ codes ")")),
        free_buffer buffer s',
      )

  -- The library was loaded, or `GetLastError` says why not.
  probe_result : Bytes → Option ℕ × S → Bytes × S
  probe_result dll_path (some handle, s) = (
    codes "LoadLibraryW succeeded on "
        ++ (dll_path
            ++ codes
                " (the DLL itself loads fine; the failure is inside InitializeApi()'s own handshake with the Runtime Manager)"),
    sdk.free_library handle s,
  )
  probe_result dll_path (none, s) =
      let (message, s') = win32_error_message (sdk.get_last_error s) s in
      (codes "LoadLibraryW(\"" ++ (dll_path ++ (codes "\") failed: " ++ message)), s')

  unfoldable pub probe_dll_load : Option Bytes → S → Bytes × S
  unfolding probe_result
  probe_dll_load none s = (
    codes
        "api_dll_dir not given, probe skipped (InitializeApi() searches the app folder, then the registry-reported install directory)",
    s,
  )
  probe_dll_load (some dll_dir) s =
      let dll_path = path_append dll_dir api_dll_name in
      probe_result dll_path (sdk.load_library dll_path (sdk.set_last_error 0 s))

  elevation_of : (Bool × ℕ) × S → Bool × S
  elevation_of ((false, token), s) = (false, s)
  elevation_of ((true, token), s) =
      let ((ok, elevated), s') = sdk.get_token_elevation token s in
      (ok && (if elevated == 0 then false else true), sdk.close_handle token s')

  unfoldable pub is_process_elevated : S → Bool × S
  unfolding elevation_of
  is_process_elevated s = elevation_of (sdk.open_process_token s)

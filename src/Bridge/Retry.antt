-- ===== src/Bridge/Retry.antt =====
-- Which SDK codes a reconnect loop may wait out: `classify` of src/SdkBridge.cpp together with
-- `is_retryable` of src/Error.cpp.
use plcsim_connector.Common.{false, refl, ◌≡◌, ◌≢◌, ◌↔◌, ◌⊎◌, true, List, [], ◌∷◌, arith, All}
use plcsim_connector.Common.Int.{==ℤ_refl, ◌==ℤ◌, ℤ, ==ℤ_iff}
use plcsim_connector.Error.{ErrorKind, is_retryable}
use plcsim_connector.Sdk.{Codes}
use plcsim_connector.Bridge.{classify}

-- The enumerators have different values, as the labels of one C++ switch must.
abbrev pub AreDifferent : List ℤ → Type 0
AreDifferent [] = Unit {0}
AreDifferent (c ∷ cs) = All (λ d. c ≢ d) cs × AreDifferent cs

abbrev pub labels : Codes → List ℤ
labels c =
    c.does_not_exist ∷ c.interface_removed ∷ c.timeout ∷ c.instance_not_running ∷ c.not_running
    ∷ c.index_out_of_range ∷ c.wrong_argument ∷ c.limit_reached ∷ c.runtime_not_available
    ∷ c.connection_error ∷ c.api_not_initialized ∷ c.error_loading_dll ∷ c.wrong_version ∷ []

abbrev pub OneOf : ℤ → List ℤ → Type 0
OneOf code [] = ⊥
OneOf code (c ∷ cs) = (code ≡ c) ⊎ OneOf code cs

-- The codes that report the state of the world and not a mistake of the caller.
abbrev pub environmental : Codes → List ℤ
environmental c =
    c.does_not_exist ∷ c.interface_removed ∷ c.timeout ∷ c.instance_not_running ∷ c.not_running
    ∷ c.runtime_not_available ∷ c.connection_error ∷ []

-- Where the SDK's error codes have different values, a code is retryable exactly if it says that an
-- instance does not exist, that the interface was removed, that a call timed out, that the instance
-- is not running or that the Runtime Manager cannot be reached; every other code, named or not, is
-- never retried.
pub classify-retryable :
    (c : Codes) (code : ℤ)
    → AreDifferent (labels c)
    → (is_retryable (classify c code) ≡ true) ↔ OneOf code (environmental c)
unfolding classify is_retryable
classify-retryable c code d = (sound, complete)
  where
    sound : is_retryable (classify c code) ≡ true → OneOf code (environmental c)
    sound h = ground (
      arith,
      ==ℤ_iff code c.does_not_exist,
      ==ℤ_iff code c.interface_removed,
      ==ℤ_iff code c.timeout,
      ==ℤ_iff code c.instance_not_running,
      ==ℤ_iff code c.not_running,
      ==ℤ_iff code c.runtime_not_available,
      ==ℤ_iff code c.connection_error,
    )

    complete : OneOf code (environmental c) → is_retryable (classify c code) ≡ true
    complete h = ground (
      arith,
      ==ℤ_iff code c.does_not_exist,
      ==ℤ_iff code c.interface_removed,
      ==ℤ_iff code c.timeout,
      ==ℤ_iff code c.instance_not_running,
      ==ℤ_iff code c.not_running,
      ==ℤ_iff code c.index_out_of_range,
      ==ℤ_iff code c.wrong_argument,
      ==ℤ_iff code c.limit_reached,
      ==ℤ_iff code c.runtime_not_available,
      ==ℤ_iff code c.connection_error,
      ==ℤ_iff code c.api_not_initialized,
      ==ℤ_iff code c.error_loading_dll,
      ==ℤ_iff code c.wrong_version,
    )

pub classify-removed :
    (c : Codes)
    → (c.interface_removed ==ℤ c.does_not_exist) ≡ false
    → classify c c.interface_removed ≡ ErrorKind.connection_lost
unfolding classify
classify-removed c different = rw (different, ==ℤ_refl c.interface_removed) refl

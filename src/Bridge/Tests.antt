-- ===== src/Bridge/Tests.antt =====
-- The tables of src/SdkBridge.cpp and src/Error.cpp at the values of the simulated SDK, after
-- tests/test_error.cpp.
use plcsim_connector.Common.{◌≡◌, ◌↔◌, refl, true, codes, arith}
use plcsim_connector.Common.Int.{negsuc}
use plcsim_connector.Error.{ErrorKind, is_retryable, kind_to_string}
use plcsim_connector.Bridge.{classify}
use plcsim_connector.Bridge.Retry.{AreDifferent, OneOf, labels, environmental, classify-retryable}
use plcsim_connector.Bridge.Tables.{states}
use plcsim_connector.Simulator.{sample_codes, sample_enums}

kind_names :
    (kind_to_string ErrorKind.instance_not_found ≡ codes "InstanceNotFound")
    × (kind_to_string ErrorKind.invalid_address ≡ codes "InvalidAddress")
unfolding kind_to_string
kind_names = (refl, refl)

different_codes : AreDifferent (labels sample_codes)
different_codes = ground arith

different_states : AreDifferent (states sample_enums)
different_states = ground arith

classify-retryable_example :
    (is_retryable (classify sample_codes (negsuc 2)) ≡ true)
    ↔ OneOf (negsuc 2) (environmental sample_codes)
classify-retryable_example = classify-retryable sample_codes (negsuc 2) different_codes

-- ===== src/Python/Reconnecting/Missed.antt =====
-- A hook on_reconnect that raises, in ReconnectingInstance of bindings/python/plcsim_connector/__init__.py.
use plcsim_connector.Common.{ℕ, zero, suc, Bool, List, [], ◌∷◌}
use plcsim_connector.Python.{Result}
use plcsim_connector.Python.Reconnecting.{Session, Settings, poll_connect}
use plcsim_connector.Python.Waiting.{Environment}
use plcsim_connector.Sdk.{Sdk}

-- So many answers.
abbrev pub always : ℕ → Result Bool → List (Result Bool)
always zero r = []
always (suc count) r = r ∷ always count r

module _ {S : Type 0} (sdk : Sdk S) (env : Environment S) (settings : Settings S) where
  -- The answers of so many polls, each on what the one before has left, and the session in the end.
  pub polls : ℕ → Session S → List (Result Bool) × Session S
  polls zero s = ([], s)
  polls (suc count) s =
      let (r, s1) = poll_connect sdk env settings s in
      let (rest, s2) = polls count s1 in (r ∷ rest, s2)

-- ===== src/Python/Reconnecting/Unreachable.antt =====
-- `ReconnectingInstance.connect` of bindings/python/plcsim_connector/__init__.py while no Runtime Manager runs.
use plcsim_connector.Error.{Error}
use plcsim_connector.Instance.Methods
use plcsim_connector.Sdk.{Sdk}

-- ===== src/Bindings/Tests.antt =====
-- Exceptions of bindings/python/module.cpp, and the texts of `repr`.
use plcsim_connector.Common.{◌≡◌, refl, codes, true, ◌↔◌}
use plcsim_connector.Common.Int.{negsuc, pos}
use plcsim_connector.Address
use plcsim_connector.Error.{Error, ErrorKind}
use plcsim_connector.Std.Decimal
use plcsim_connector.Types.{Area, area_to_string}
use plcsim_connector.Bindings.{repr_info, repr_address, repr_instance}
use plcsim_connector.Bindings.Values.{
  ParseEnds, py_parse, py_parse-ParseEnds, py_eq, py_str, py_eq-py_str, py_parse-answered,
}
use plcsim_connector.Address.Tests.{lamp, spelled}

abbrev late : Error
late = record {
  kind = ErrorKind.timeout;
  code = negsuc 2;
  code_name = codes "SREC_TIMEOUT";
  message = codes "Run failed: SREC_TIMEOUT (-3)";
}

shown :
    (repr_info (record { id = pos 1; name = codes "A" }) ≡ codes "InstanceInfo(id=1, name='A')")
    × (repr_address (record { area = Area.output; byte = 4; bit = 1 })
        ≡ codes "BitAddress('%Q4.1')")
    × (repr_instance (codes "A") (pos 1) ≡ codes "<Instance name='A' id=1>")
unfolding repr_info repr_address repr_instance Address.to_string area_to_string Decimal.to_string
    Decimal.int_to_string
shown = (refl, refl, refl)

py_parse-ParseEnds_example : ParseEnds (codes "%I10.2") (py_parse (codes "%I10.2"))
py_parse-ParseEnds_example = py_parse-ParseEnds (codes "%I10.2")

py_eq-py_str_example : (py_eq lamp lamp ≡ true) ↔ (py_str lamp ≡ py_str lamp)
py_eq-py_str_example =
    py_eq-py_str (codes " %ax4.1") (codes " %ax4.1") lamp lamp
      (py_parse-answered (codes " %ax4.1") lamp spelled)
      (py_parse-answered (codes " %ax4.1") lamp spelled)

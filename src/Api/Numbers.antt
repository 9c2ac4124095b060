-- ===== src/Api/Numbers.antt =====
-- Numbers as text. There are no floating-point numbers in the model: the type `double` and its two
-- conversions by the C++ standard library are the fields of a record.
use prov_cpl.Prelude.{Option, Text, Bool, true, false, codes}

pub record Numbers (Double : Type 0) : Type 0 where
  -- `std::to_string`
  pub to_string : Double → Text
  -- `std::stod`; `none` is an exception
  pub stod : Text → Option Double

-- `std::to_string` of a `bool`, which is promoted to `int`.
unfoldable pub bool_to_string : Bool → Text
bool_to_string true = codes "1"
bool_to_string false = codes "0"

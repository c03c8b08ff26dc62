-- ===== src/Tests/Settings.antt =====
-- The options of a Slipstream deployment with two tick spacings.
use epeius.Prelude.Int.{pos, negsuc}
use epeius.Config.{Value, Values, Fields}

abbrev first_value : Value
first_value = Value.integer (pos 100)

abbrev other_values : Values
other_values = Values.cons (Value.integer (negsuc 0)) Values.nil

abbrev raw : Fields
raw = Fields.field "tick_spacings" (Value.array (Values.cons first_value other_values)) Fields.end

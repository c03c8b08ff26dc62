-- ===== src/Prelude/Concat.antt =====
-- s + t on strings, under a name that lists do not use.
use Prim.Native.String.{String, ◌++◌}

abbrev pub append : String → String → String
append s t = s ++ t

-- ===== src/Yoda.antt =====
-- yoda/main.cc: the tables of a router that does nothing yet.
use hspp.Prelude.{ℕ, zero, suc, List, Text, ◌≡◌, refl}
use hspp.Outcome.{Outcome, stop, no_fuel}

abbrev interface_name_len : ℕ
interface_name_len = 16

abbrev max_interfaces : ℕ
max_interfaces = 256

data InterfaceType : Type 0 where
  physical vlan vxlan gre : InterfaceType

-- The name is the text in an array of `interface_name_len` bytes.
record Interface : Type 0 where
  name : Text
  pid : ℕ
  type : InterfaceType

-- A structure without fields.
record Fib : Type 0 where

-- The array has `max_interfaces` elements.
record YodaInfo : Type 0 where
  interfaces : List Interface
  fib : Fib

-- What `main` has on its stack at first is not set; its loop has no end, and so no fuel is enough.
unfoldable main : ℕ → YodaInfo → Outcome (Unit {0})
main zero yoda_info = stop no_fuel
main (suc fuel) yoda_info = main fuel yoda_info

-- The loop never ends.
main-endless : (fuel : ℕ) (yoda_info : YodaInfo) → main fuel yoda_info ≡ stop no_fuel
unfolding main
main-endless zero yoda_info = refl
main-endless (suc fuel) yoda_info = main-endless fuel yoda_info

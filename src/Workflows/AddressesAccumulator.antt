-- ===== src/Workflows/AddressesAccumulator.antt =====
-- workflows/addressesAccumulator.go: a set of addresses.
use mx_sdk_erdgo.Prelude.{String, List, [], ◌∷◌, string_eq}
use mx_sdk_erdgo.Dict.{Dict, insert}

pub record AddressesAccumulator : Type 0 where
  pub addresses_map : Dict String (Unit {0})

unfoldable pub new_addresses_accumulator : AddressesAccumulator
new_addresses_accumulator = record { addresses_map = [] }

unfoldable pub push : String → AddressesAccumulator → AddressesAccumulator
push address aa = record { addresses_map = insert aa.addresses_map address tt }

abbrev pub keys : Dict String (Unit {0}) → List String
keys [] = []
keys ((k, v) ∷ m) = k ∷ keys m

unfoldable pub pop : AddressesAccumulator → List String × AddressesAccumulator
pop aa = (keys aa.addresses_map, record { addresses_map = [] })

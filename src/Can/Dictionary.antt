-- ===== src/Can/Dictionary.antt =====
-- emb/can/canopen/detail/sdo_server.hpp: the dictionary as the server sorts and searches it.
pub mod Find
use emblib.Base.{Bool, Option, none, some, List, [], ◌∷◌, if◌then◌else◌}
use emblib.Can.Od.{OdKey, OdEntry, key_lt, key_eq}

module _ {S : Type 0} where
  abbrev pub insert_entry : OdEntry S → List (OdEntry S) → List (OdEntry S)
  insert_entry e [] = e ∷ []
  insert_entry e (d ∷ ds) =
      let rest = insert_entry e ds in if key_lt d.key e.key then d ∷ rest else e ∷ d ∷ ds

  -- `init_dictionary`: `std::sort` of the entries. Its assertions on the sorted entries are the
  -- hypotheses of what is proved.
  unfoldable pub init_dictionary : List (OdEntry S) → List (OdEntry S)
  init_dictionary [] = []
  init_dictionary (e ∷ es) = insert_entry e (init_dictionary es)

  -- `std::lower_bound`: the first entry that is not before the key, with what follows it.
  unfoldable pub lower_bound : List (OdEntry S) → OdKey → List (OdEntry S)
  lower_bound [] key = []
  lower_bound (e ∷ es) key =
      let rest = lower_bound es key in if key_lt e.key key then rest else e ∷ es

  abbrev pub head_at : OdKey → List (OdEntry S) → Option (OdEntry S)
  head_at key [] = none
  head_at key (e ∷ es) = if key_eq key e.key then some e else none

  unfoldable pub find : List (OdEntry S) → OdKey → Option (OdEntry S)
  find dictionary key = head_at key (lower_bound dictionary key)

-- ===== src/Trouble/Mirror.antt =====
-- emb/trouble.hpp: `registry_mirror`, whose rows come from elsewhere.
use emblib.Base.{
  ℕ, zero, suc, Bool, true, false, Option, none, some, List, [], get_or, set, if◌then◌else◌,
}
use emblib.Trouble.{Flags, test_bit, any_bit, empty_rows, any_row, Registry, flags_of}

pub record RegistryMirror : Type 0 where
  pub rows : List Flags

unfoldable pub empty_mirror : ℕ → ℕ → RegistryMirror
empty_mirror level_count status_count = record { rows = empty_rows level_count status_count }

unfoldable pub store : ℕ → Flags → RegistryMirror → RegistryMirror
store lvl bits m = record { rows = set m.rows lvl bits }

unfoldable pub test_at : ℕ → ℕ → RegistryMirror → Bool
test_at id lvl m = test_bit (get_or m.rows lvl []) id

-- The loop of `test`, over all levels.
unfoldable pub test_rows : ℕ → ℕ → ℕ → List Flags → Bool
test_rows zero id lvl rows = false
test_rows (suc n) id lvl rows =
    let rest = test_rows n id (suc lvl) rows in
    if test_bit (get_or rows lvl []) id then true else rest

unfoldable pub test : ℕ → ℕ → RegistryMirror → Bool
test level_count id m = test_rows level_count id 0 m.rows

unfoldable pub any : RegistryMirror → Bool
any m = any_row m.rows

-- The loop of `worst`, down from a level.
unfoldable pub worst_below : ℕ → List Flags → Option ℕ
worst_below zero rows = none
worst_below (suc l) rows =
    let rest = worst_below l rows in if any_bit (get_or rows l []) then some l else rest

unfoldable pub worst : ℕ → RegistryMirror → Option ℕ
worst level_count m = worst_below level_count m.rows

-- The levels of a registry below a number, sent to a mirror.
unfoldable pub send_levels : ℕ → Registry → RegistryMirror → RegistryMirror
send_levels zero r m = m
send_levels (suc l) r m = store l (flags_of l r) (send_levels l r m)

-- ===== src/Trouble.antt =====
-- emb/trouble.hpp: which statuses are active at which level, and a mirror of that. A status is its
-- index in the list of statuses, a level its underlying number, and a bitset the list of its bits. A
-- published row is what a load of its double buffer returns; the critical section makes each call one
-- step. A result `none` is a loop that does not end.
pub mod Rows
pub mod Active
pub mod Mirror
pub mod Reads
pub mod Worst
pub mod Reports
mod Tests
use emblib.Base.{
  ℕ, zero, suc, ◌+◌, ◌%◌, Bool, true, false, ◌||◌, Option, none, some, List, leb, [], ◌∷◌, length,
  get_or, set, replicate, ◌==◌, if◌then◌else◌,
}
use emblib.Base.OptionMonad.{◌>>=◌}

pub record Status : Type 0 where
  pub level_min : ℕ
  pub level_max : ℕ

abbrev pub Flags : Type 0
Flags = List Bool

-- `std::bitset::test` and `any`.
abbrev pub test_bit : Flags → ℕ → Bool
test_bit bits i = get_or bits i false

abbrev pub any_bit : Flags → Bool
any_bit [] = false
any_bit (b ∷ bits) = b || any_bit bits

-- `shadow_` and `flags_`, a row of bits for each level.
pub record Registry : Type 0 where
  pub shadow : List Flags
  pub flags : List Flags

abbrev pub empty_rows : ℕ → ℕ → List Flags
empty_rows level_count status_count = replicate level_count (replicate status_count false)

unfoldable pub empty_registry : ℕ → ℕ → Registry
empty_registry level_count status_count = record {
  shadow = empty_rows level_count status_count;
  flags = empty_rows level_count status_count;
}

-- A bit of the shadow row, and then the row published.
abbrev pub write_bit : ℕ → Bool → ℕ → Registry → Registry
write_bit id b lvl r =
    let row = set (get_or r.shadow lvl []) id b in
    record { shadow = set r.shadow lvl row; flags = set r.flags lvl row }

unfoldable pub set_at : ℕ → ℕ → Registry → Registry
set_at id lvl r = write_bit id true lvl r

unfoldable pub reset_at : ℕ → ℕ → Registry → Registry
reset_at id lvl r = write_bit id false lvl r

-- The loops of `reset` and `test` from a level to the last one. Their variable has the underlying type
-- of the levels, with `level_mod` values, and wraps. The first argument bounds the rounds; `none` is a
-- loop that has not ended by then.
unfoldable pub reset_levels : ℕ → ℕ → ℕ → ℕ → ℕ → Registry → Option Registry
reset_levels zero level_mod id lvl hi r = none
reset_levels (suc n) level_mod id lvl hi r =
    let rest = reset_levels n level_mod id ((lvl + 1) % level_mod) hi (write_bit id false lvl r) in
    if leb lvl hi then rest else some r

unfoldable pub test_levels : ℕ → ℕ → ℕ → ℕ → ℕ → List Flags → Option Bool
test_levels zero level_mod id lvl hi rows = none
test_levels (suc n) level_mod id lvl hi rows =
    let rest = test_levels n level_mod id ((lvl + 1) % level_mod) hi rows in
    if leb lvl hi
    then (if test_bit (get_or rows lvl []) id then some true else rest)
    else some false

-- The loop of `any`.
unfoldable pub any_row : List Flags → Bool
any_row [] = false
any_row (row ∷ rows) = let rest = any_row rows in if any_bit row then true else rest

unfoldable pub test_at : ℕ → ℕ → Registry → Bool
test_at id lvl r = test_bit (get_or r.flags lvl []) id

abbrev pub no_status : Status
no_status = record { level_min = 0; level_max = 0 }

abbrev pub flags_of : ℕ → Registry → Flags
flags_of lvl r = get_or r.flags lvl []

abbrev pub any_at : ℕ → Registry → Bool
any_at lvl r = any_bit (flags_of lvl r)

abbrev pub any : Registry → Bool
any r = any_row r.flags

-- The calls of a registry of some statuses, by the template arguments.
pub data Call : Type 0 where
  set_level reset_level : (id lvl : ℕ) → Call
  set_status reset_status : (id : ℕ) → Call
  clear_all : Call

abbrev pub status_of : List Status → ℕ → Status
status_of statuses id = get_or statuses id no_status

-- `level_mod` is the number of values of the underlying type of the levels.
module _ (statuses : List Status) (level_count level_mod : ℕ) where
  -- For a status that is confined to one level.
  unfoldable pub set_only : ℕ → Registry → Registry
  set_only id r = set_at id (status_of statuses id).level_min r

  unfoldable pub reset : ℕ → Registry → Option Registry
  reset id r =
      let s = status_of statuses id in
      if s.level_min == s.level_max
      then some (reset_at id s.level_min r)
      else reset_levels (suc level_mod) level_mod id s.level_min s.level_max r

  unfoldable pub test : ℕ → Registry → Option Bool
  test id r =
      let s = status_of statuses id in
      if s.level_min == s.level_max
      then some (test_at id s.level_min r)
      else test_levels (suc level_mod) level_mod id s.level_min s.level_max r.flags

  unfoldable pub clear : Registry → Registry
  clear r = record {
    shadow = empty_rows level_count (length statuses);
    flags = empty_rows level_count (length statuses);
  }

  abbrev pub call : Call → Registry → Option Registry
  call (set_level id lvl) r = some (set_at id lvl r)
  call (reset_level id lvl) r = some (reset_at id lvl r)
  call (set_status id) r = some (set_only id r)
  call (reset_status id) r = reset id r
  call clear_all r = some (clear r)

  unfoldable pub run : List Call → Registry → Option Registry
  run [] r = some r
  run (c ∷ cs) r = call c r >>= λ r'. run cs r'

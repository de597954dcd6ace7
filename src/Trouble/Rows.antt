-- ===== src/Trouble/Rows.antt =====
-- Rows of bits of emb/trouble.hpp, and what they show of each status at each level.
use emblib.Base.{
  ℕ, zero, suc, ◌+◌, ◌-◌, ◌≤◌, ◌<◌, ◌≡◌, refl, ap, sym, ◌∙◌, Bool, true, false, none, some, ◌%◌,
  ◌&&◌, List, [], arith, length, get_or, set, replicate, length-set, length-replicate, get_or-set,
  ◌==◌, leb, ltb, if◌then◌else◌,
}
use native.Mathlib.Decide.{ℕ_discrete}
use native.Mathlib.Nat.{mod-eq_of_lt, mod-lt}
use emblib.Trouble.{Flags, test_bit, empty_rows, Registry, write_bit, reset_levels}

-- Whether a status is active at a level.
abbrev pub Activity : Type 0
Activity = (id lvl : ℕ) → Bool

abbrev pub switched : ℕ → ℕ → Bool → Activity → Activity
switched id lvl b active j m = if (id == j) && (lvl == m) then b else active j m

abbrev pub nothing : Activity
nothing id lvl = false

-- A status off at all its levels.
abbrev pub off_between : ℕ → ℕ → ℕ → Activity → Activity
off_between id low high active j m =
    if (id == j) && (leb low m && leb m high) then false else active j m

-- A status switched off from a level on, for some levels.
abbrev pub switched_off : ℕ → ℕ → ℕ → Activity → Activity
switched_off zero id lvl active = active
switched_off (suc n) id lvl active = switched_off n id (suc lvl) (switched id lvl false active)

switched_off_bit :
    (n id lvl j m : ℕ) (active : Activity)
    → switched_off n id lvl active j m
      ≡ (if (id == j) && (leb lvl m && ltb m (lvl + n)) then false else active j m)
switched_off_bit zero id lvl j m active = ground arith
switched_off_bit (suc n) id lvl j m active =
    ground (arith, switched_off_bit n id (suc lvl) j m (switched id lvl false active))

pub switched_off_between :
    (id low high j m : ℕ) (active : Activity)
    → low ≤ high
    → switched_off (high + 1 - low) id low active j m ≡ off_between id low high active j m
switched_off_between id low high j m active h =
    ground (arith, switched_off_bit (high + 1 - low) id low j m active)

-- The bit of a status cleared at a number of levels.
abbrev pub reset_rounds : ℕ → ℕ → ℕ → Registry → Registry
reset_rounds zero id lvl r = r
reset_rounds (suc n) id lvl r = reset_rounds n id (suc lvl) (write_bit id false lvl r)

-- Where the last level is not the greatest of its type, the loop ends and has cleared all its levels.
pub reset_levels-reset_rounds :
    (n fuel level_mod id lvl hi : ℕ) (r : Registry)
    → lvl + n ≡ hi + 1
    → hi + 1 < level_mod
    → n < fuel
    → reset_levels fuel level_mod id lvl hi r ≡ some (reset_rounds n id lvl r)
unfolding reset_levels
reset_levels-reset_rounds n zero level_mod id lvl hi r e small enough = absurd (omega arith)
reset_levels-reset_rounds zero (suc fuel) level_mod id lvl hi r e small enough =
    let past : leb lvl hi ≡ false = ground arith in rw past refl
reset_levels-reset_rounds (suc n) (suc fuel) level_mod id lvl hi r e small enough =
    let inside : leb lvl hi ≡ true = ground arith in
    let next : (lvl + 1) % level_mod ≡ suc lvl = mod-eq_of_lt (omega arith) ∙ omega arith in
    rw (inside, next)
      (reset_levels-reset_rounds n fuel level_mod id (suc lvl) hi (write_bit id false lvl r)
        (omega arith) small (omega arith))

-- Where it is the greatest, the loop does not end.
pub reset_levels_endless :
    (fuel level_mod id lvl hi : ℕ) (r : Registry)
    → lvl < level_mod
    → hi + 1 ≡ level_mod
    → reset_levels fuel level_mod id lvl hi r ≡ none
unfolding reset_levels
reset_levels_endless zero level_mod id lvl hi r inside last = refl
reset_levels_endless (suc fuel) level_mod id lvl hi r inside last =
    let on : leb lvl hi ≡ true = ground arith in
    rw on (
      reset_levels_endless fuel level_mod id ((lvl + 1) % level_mod) hi (write_bit id false lvl r)
        (mod-lt (lvl + 1) (omega arith)) last)

module _ (level_count status_count : ℕ) where
  -- The published rows are the shadow's, and their bits show what is active.
  pub record Shows (active : Activity) (r : Registry) : Type 0 where
    pub published : r.flags ≡ r.shadow
    pub level_rows : length r.shadow ≡ level_count
    pub status_bits : (m : ℕ) → m < level_count → length (get_or r.shadow m []) ≡ status_count
    pub bits :
        (j m : ℕ)
        → j < status_count
        → m < level_count
        → test_bit (get_or r.shadow m []) j ≡ active j m

  row_set :
      (rows : List Flags) (l m : ℕ) (row : Flags)
      → l < length rows
      → get_or (set rows l row) m [] ≡ (if l == m then row else get_or rows m [])
  row_set rows l m row h = get_or-set rows l m row [] h

  bits_set :
      (rows : List Flags) (id lvl j m : ℕ) (b : Bool) (active : Activity)
      → lvl < length rows
      → id < length (get_or rows lvl [])
      → test_bit (get_or rows m []) j ≡ active j m
      → test_bit (get_or (set rows lvl (set (get_or rows lvl []) id b)) m []) j
        ≡ switched id lvl b active j m
  bits_set rows id lvl j m b active hl hi old = elim (ℕ_discrete lvl m) [
    | yes e ↦
        let old' : test_bit (get_or rows lvl []) j ≡ active j lvl = rw e old in
        rw (sym e) (
          ground (
            arith,
            row_set rows lvl lvl (set (get_or rows lvl []) id b) hl,
            get_or-set (get_or rows lvl []) id j b false hi,
            old',
          ))
    | no ne ↦ ground (arith, old, row_set rows lvl m (set (get_or rows lvl []) id b) hl)
  ]

  length-set_bit :
      (rows : List Flags) (id lvl m n : ℕ) (b : Bool)
      → lvl < length rows
      → length (get_or rows lvl []) ≡ n
      → length (get_or rows m []) ≡ n
      → length (get_or (set rows lvl (set (get_or rows lvl []) id b)) m []) ≡ n
  length-set_bit rows id lvl m n b hl here there = ground (
    arith,
    here,
    there,
    length-set (get_or rows lvl []) id b,
    row_set rows lvl m (set (get_or rows lvl []) id b) hl,
  )

  pub write_bit-Shows :
      (id lvl : ℕ) (b : Bool) (active : Activity) (r : Registry)
      → id < status_count
      → lvl < level_count
      → Shows active r
      → Shows (switched id lvl b active) (write_bit id b lvl r)
  write_bit-Shows id lvl b active r hi hl h =
      let row = set (get_or r.shadow lvl []) id b in
      let rows = h.level_rows in
      record {
        published = ap (λ f. set f lvl row) h.published;
        level_rows = length-set r.shadow lvl row ∙ rows;
        status_bits = λ m hm.
            length-set_bit r.shadow id lvl m status_count b (omega arith) (h.status_bits lvl hl)
              (h.status_bits m hm);
        bits = λ j m hj hm.
            let size = h.status_bits lvl hl in
            bits_set r.shadow id lvl j m b active (omega arith) (omega arith) (h.bits j m hj hm);
      }

  pub reset_rounds-Shows :
      (n id lvl : ℕ) (active : Activity) (r : Registry)
      → id < status_count
      → lvl + n ≤ level_count
      → Shows active r
      → Shows (switched_off n id lvl active) (reset_rounds n id lvl r)
  reset_rounds-Shows zero id lvl active r hi hl h = h
  reset_rounds-Shows (suc n) id lvl active r hi hl h =
      reset_rounds-Shows n id (suc lvl) (switched id lvl false active) (write_bit id false lvl r) hi
        (omega arith) (write_bit-Shows id lvl false active r hi (omega arith) h)

  get_or-replicate_at : {A : Type 0} (n i : ℕ) (a d : A) → i < n → get_or (replicate n a) i d ≡ a
  get_or-replicate_at zero i a d h = absurd (omega arith)
  get_or-replicate_at (suc n) zero a d h = refl
  get_or-replicate_at (suc n) (suc i) a d h = get_or-replicate_at n i a d (omega arith)

  pub empty-Shows : Shows nothing (record {
    shadow = empty_rows level_count status_count;
    flags = empty_rows level_count status_count;
  })
  empty-Shows = record {
    published = refl;
    level_rows = length-replicate level_count (replicate status_count false);
    status_bits = λ m hm.
        ap length (get_or-replicate_at level_count m (replicate status_count false) [] hm)
        ∙ length-replicate status_count false;
    bits = λ j m hj hm.
        ap (λ row. test_bit row j)
          (get_or-replicate_at level_count m (replicate status_count false) [] hm)
        ∙ get_or-replicate_at status_count j false false hj;
  }

  -- The bits show any activity that agrees at the levels and the statuses there are.
  pub Shows-agree :
      (active active' : Activity) (r : Registry)
      → ((j m : ℕ) → active j m ≡ active' j m)
      → Shows active r
      → Shows active' r
  Shows-agree active active' r e h = record {
    published = h.published;
    level_rows = h.level_rows;
    status_bits = h.status_bits;
    bits = λ j m hj hm. h.bits j m hj hm ∙ e j m;
  }

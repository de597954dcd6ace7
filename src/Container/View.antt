-- ===== src/Container/View.antt =====
-- An array of slots seen from an index `front` on, going round at its capacity: what is at each
-- offset, and how a write or a move of `front` changes it.
use emblib.Base.{
  ℕ, ◌+◌, ◌-◌, ◌%◌, ◌≤◌, ◌<◌, ◌≡◌, ◌∙◌, ap, Option, none, arith, length, set, length-set,
  get_or-set, ltb, leb, none, ◌==◌, if◌then◌else◌,
}
use native.Mathlib.Nat.{mod-eq_of_lt, mod-eq-sub-mod}
use native.Mathlib.Decide.{dec_lt}
use emblib.Container.Slots.{Slots, slot, max_capacity, add_size}

-- `index_of(offset)` for a given `front_` and capacity.
abbrev pub ring_index : ℕ → ℕ → ℕ → ℕ
ring_index cap front offset = add_size front offset % cap

pub ring_index_lem :
    (cap front offset : ℕ)
    → cap ≤ max_capacity
    → front < cap
    → offset ≤ cap
    → ring_index cap front offset
      ≡ (if ltb (front + offset) cap then front + offset else front + offset - cap)
ring_index_lem cap front offset small h k = elim (dec_lt (front + offset) cap) [
  | yes p ↦ ground (arith, mod-eq_of_lt p)
  | no p ↦ ground (
    arith,
    mod-eq-sub-mod {n = front + offset} {m = cap} (omega arith),
    mod-eq_of_lt {n = front + offset - cap} {m = cap},
  )
]

pub record View {ℓ} {A : Type ℓ} (cap front : ℕ) (d : Slots A) (f : ℕ → Option A) : Type ℓ where
  pub small : cap ≤ max_capacity
  pub front_in : front < cap
  pub whole : length d ≡ cap
  pub at : (j : ℕ) → j < cap → slot d (ring_index cap front j) ≡ f j

module _ (cap front : ℕ) (small : cap ≤ max_capacity) (front_in : front < cap) where
  pub ring_index-lt : (i : ℕ) → i < cap → ring_index cap front i < cap
  ring_index-lt i h = ground (arith, ring_index_lem cap front i small front_in)

  pub ring_index-injective :
      (i j : ℕ) → i < cap → j < cap → ring_index cap front i ≡ ring_index cap front j → i ≡ j
  ring_index-injective i j hi hj e =
      ground (
        arith,
        ring_index_lem cap front i small front_in,
        ring_index_lem cap front j small front_in,
      )

  pub ring_index-== :
      (i j : ℕ) → i < cap → j < cap → (ring_index cap front i == ring_index cap front j) ≡ (i == j)
  ring_index-== i j hi hj = ground (arith, ring_index-injective i j hi hj)

  -- One place further round.
  pub ring_index-next :
      (j : ℕ)
      → j < cap
      → ring_index cap (ring_index cap front 1) j
        ≡ ring_index cap front (if ltb (j + 1) cap then j + 1 else 0)
  ring_index-next j h = ground (
    arith,
    ring_index_lem cap front 1 small front_in,
    ring_index_lem cap (ring_index cap front 1) j small (ring_index-lt-one),
    ring_index_lem cap front (j + 1) small front_in,
    ring_index_lem cap front 0 small front_in,
  )
    where
      ring_index-lt-one : ring_index cap front 1 < cap
      ring_index-lt-one = ground (arith, ring_index_lem cap front 1 small front_in)

module _ {ℓ} {A : Type ℓ} {cap front : ℕ} {d : Slots A} {f : ℕ → Option A} where
  pub View-ext :
      {g : ℕ → Option A} → View cap front d f → ((j : ℕ) → j < cap → f j ≡ g j) → View cap front d g
  View-ext v e = record {
    small = v.small;
    front_in = v.front_in;
    whole = v.whole;
    at = λ j h. v.at j h ∙ e j h;
  }

  pub View-set :
      (i : ℕ) (o : Option A)
      → View cap front d f
      → i < cap
      → View cap front (set d (ring_index cap front i) o) (λ j. if i == j then o else f j)
  View-set i o v h = record {
    small = v.small;
    front_in = v.front_in;
    whole = length-set d (ring_index cap front i) o ∙ v.whole;
    at = λ j hj.
        get_or-set d (ring_index cap front i) (ring_index cap front j) o none
          (ground (arith, ring_index-lt cap front v.small v.front_in i h, v.whole))
        ∙ rw (ring_index-== cap front v.small v.front_in i j h hj)
            (ap (λ x. if i == j then o else x) (v.at j hj));
  }

  -- `front` moves on by one: the first slot becomes the last.
  pub View-next :
      View cap front d f
      → View cap (ring_index cap front 1) d (λ j. f (if ltb (j + 1) cap then j + 1 else 0))
  View-next v = record {
    small = v.small;
    front_in = ground (arith, ring_index_lem cap front 1 v.small v.front_in);
    whole = v.whole;
    at = λ j h.
        ap (slot d) (ring_index-next cap front v.small v.front_in j h)
        ∙ v.at (if ltb (j + 1) cap then j + 1 else 0) (ground (arith, v.front_in));
  }

-- One place back round the ring is `cap - 1` places on.
pub ring_index-back :
    (cap front j : ℕ)
    → cap ≤ max_capacity
    → front < cap
    → j < cap
    → ring_index cap (ring_index cap front (cap - 1)) j
      ≡ ring_index cap front (if j == 0 then cap - 1 else j - 1)
ring_index-back cap front j small h k = ground (
  arith,
  ring_index_lem cap front (cap - 1) small h,
  ring_index_lem cap (ring_index cap front (cap - 1)) j small
      (ring_index-lt cap front small h (cap - 1) (omega arith)),
  ring_index_lem cap front (j - 1) small h,
)

module _ {ℓ} {A : Type ℓ} {cap front : ℕ} {d : Slots A} {f : ℕ → Option A} where
  -- `front` moves back by one: the last slot becomes the first.
  pub View-back :
      View cap front d f
      → View cap (ring_index cap front (cap - 1)) d (λ j. f (if j == 0 then cap - 1 else j - 1))
  View-back v = record {
    small = v.small;
    front_in = ring_index-lt cap front v.small v.front_in (cap - 1) (omega (arith, v.front_in));
    whole = v.whole;
    at = λ j h.
        ap (slot d) (ring_index-back cap front j v.small v.front_in h)
        ∙ v.at (if j == 0 then cap - 1 else j - 1) (ground arith);
  }

-- A ring without live objects may start anywhere.
pub View-restart {ℓ} :
    {A : Type ℓ} {cap front : ℕ} {d : Slots A}
    → View cap front d (λ _. none)
    → View cap 0 d (λ _. none)
View-restart {cap} {front} {d} v = record {
  small = v.small;
  front_in = omega (arith, v.front_in);
  whole = v.whole;
  at = λ j h. ap (slot d) (same j h) ∙ v.at (offset j) (offset_in j h);
}
  where
    offset : ℕ → ℕ
    offset j = if leb front j then j - front else j + cap - front

    offset_in : (j : ℕ) → j < cap → offset j < cap
    offset_in j h = ground (arith, v.front_in)

    same : (j : ℕ) → j < cap → ring_index cap 0 j ≡ ring_index cap front (offset j)
    same j h = ground (
      arith,
      v.small,
      v.front_in,
      offset_in j h,
      ring_index_lem cap 0 j v.small (omega (arith, v.front_in)),
      ring_index_lem cap front (offset j) v.small v.front_in,
    )

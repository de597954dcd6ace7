-- ===== src/Container/CircularBuffer/Moves.antt =====
-- What the accessors of a circular buffer read after a move.
use emblib.Base.{ℕ, ◌≡◌, refl, Bool, true, false, some, List, [], get_elem?, last?, if◌then◌else◌}
use emblib.Container.CircularBuffer.{
  CircularBuffer, copy_operator, move_operator, front_value, back_value, at,
}
use emblib.Container.CircularBuffer.Holds.{Holds}
use emblib.Container.CircularBuffer.Copies.{copy_assign-Makes, move_assign_buffer}
use emblib.Container.CircularBuffer.Refine.{accessors_read}

module _ {ℓ} {A : Type ℓ} (cap : ℕ) where
  -- Front, back and the index operator read a list.
  abbrev pub Reads : CircularBuffer A → List A → ℕ → Type ℓ
  Reads b xs i =
      (front_value cap b ≡ get_elem? xs 0)
      × (back_value cap b ≡ last? xs)
      × (at cap b i ≡ get_elem? xs i)

  -- What a move leaves in its source.
  abbrev pub left_behind : Bool → List A → List A
  left_behind trivial ys = if trivial then ys else []

  -- Between two buffers that hold lists, and whether or not their elements are trivially copyable, a
  -- copy and a move assignment go through without a fault and leave the list of the source in the
  -- target. A move leaves the source as it was where the elements are trivially copyable, and empty
  -- where they are not. After the move, front, back and the index operator read the first, the last and
  -- the i-th element of what the target and the source hold, and fault exactly where there is none.
  pub assigned_contents :
      (trivial : Bool) {b other : CircularBuffer A} (xs ys : List A) (i : ℕ)
      → Holds cap b xs
      → Holds cap other ys
      → (c b' other' : CircularBuffer A) × (copy_operator cap trivial b other ≡ some c)
        × Holds cap c ys
        × (move_operator cap trivial b other ≡ some (b', other'))
        × Holds cap b' ys
        × Holds cap other' (left_behind trivial ys)
        × Reads b' ys i
        × Reads other' (left_behind trivial ys) i
  unfolding copy_operator move_operator
  assigned_contents true {b} {other} xs ys i h k =
      let reads = accessors_read cap ys i k in
      (other, other, other, refl, k, refl, k, k, reads, reads)
  assigned_contents false xs ys i h k =
      let (c, copied, holds) = copy_assign-Makes xs ys h k in
      let (b, other, moved, target, source) = move_assign_buffer xs ys h k in
      (
        c,
        b,
        other,
        copied,
        holds,
        moved,
        target,
        source,
        accessors_read cap ys i target,
        accessors_read cap [] i source,
      )

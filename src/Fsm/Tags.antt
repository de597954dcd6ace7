-- ===== src/Fsm/Tags.antt =====
-- emb/fsm/fsm_v3.hpp: the tags of the states, and `state_tag`.
use emblib.Base.{
  ℕ, zero, suc, ◌<◌, ◌≡◌, ◌≢◌, refl, ap, sym, ◌↔◌, Bool, true, false, Option, some, List, [], ◌∷◌,
  arith, length, get_elem?, if◌then◌else◌, ◌==◌, ==_iff, Bool-cases, inl, inr,
}
use emblib.Fsm.{Machine, is_in_state}

-- The inner loop of `are_tags_unique`, from `j = i + 1`, and the outer one.
unfoldable pub differs_from : ℕ → List ℕ → Bool
differs_from tag [] = true
differs_from tag (t ∷ ts) = let rest = differs_from tag ts in if tag == t then false else rest

unfoldable pub are_tags_unique : List ℕ → Bool
are_tags_unique [] = true
are_tags_unique (tag ∷ tags) =
    let rest = are_tags_unique tags in if differs_from tag tags then rest else false

-- The tag of the alternative that the variant holds.
abbrev pub state_tag {ℓ κ} : {V : Type ℓ} {C : Type κ} → List ℕ → Machine V C → Option ℕ
state_tag tags m = get_elem? tags m.state.alternative

differs_from-get_elem? :
    (tag : ℕ) (tags : List ℕ) (i : ℕ) → differs_from tag tags ≡ true → get_elem? tags i ≢ some tag
unfolding differs_from
differs_from-get_elem? tag [] i h e = absurd (cc)
differs_from-get_elem? tag (t ∷ ts) zero h e = ground arith
differs_from-get_elem? tag (t ∷ ts) (suc i) h e = differs_from-get_elem? tag ts i (ground arith) e

abbrev pub IsDistinct : List ℕ → Type 0
IsDistinct tags =
    (i j : ℕ) → i < length tags → j < length tags → get_elem? tags i ≡ get_elem? tags j → i ≡ j

-- are_tags_unique ts, given one for the tail
pub are_tags_unique-IsDistinct : (tags : List ℕ) → are_tags_unique tags ≡ true → IsDistinct tags
unfolding are_tags_unique
are_tags_unique-IsDistinct [] h i j hi hj e = absurd (omega arith)
are_tags_unique-IsDistinct (t ∷ ts) h zero zero hi hj e = refl
are_tags_unique-IsDistinct (t ∷ ts) h zero (suc j) hi hj e =
    absurd (differs_from-get_elem? t ts j (ground arith) (sym e))
are_tags_unique-IsDistinct (t ∷ ts) h (suc i) zero hi hj e =
    absurd (differs_from-get_elem? t ts i (ground arith) e)
are_tags_unique-IsDistinct (t ∷ ts) h (suc i) (suc j) hi hj e =
    ap suc (are_tags_unique-IsDistinct ts (ground arith) i j (omega arith) (omega arith) e)

differs_from_of :
    (tag : ℕ) (tags : List ℕ)
    → ((i : ℕ) → i < length tags → get_elem? tags i ≢ some tag)
    → differs_from tag tags ≡ true
unfolding differs_from
differs_from_of tag [] h = refl
differs_from_of tag (t ∷ ts) h =
    let rest = differs_from_of tag ts (λ i hi. h (suc i) (omega arith)) in
    let first = h 0 (omega arith) in
    elim (Bool-cases (tag == t)) [
      | inl e ↦ absurd (first (ap some (sym ((==_iff tag t).0 e))))
      | inr e ↦ rw (e, rest) refl
    ]

pub IsDistinct-are_tags_unique : (tags : List ℕ) → IsDistinct tags → are_tags_unique tags ≡ true
unfolding are_tags_unique
IsDistinct-are_tags_unique [] d = refl
IsDistinct-are_tags_unique (t ∷ ts) d =
    let rest =
      IsDistinct-are_tags_unique ts
        (λ i j hi hj e. let s = d (suc i) (suc j) (omega arith) (omega arith) e in omega arith) in
    let first =
      differs_from_of t ts (λ i hi e.
        let s = d 0 (suc i) (omega arith) (omega arith) (sym e) in absurd (omega arith)) in
    rw (first, rest) refl

-- The tags pass the check exactly where no two states share one.
pub are_tags_unique_iff : (tags : List ℕ) → (are_tags_unique tags ≡ true) ↔ IsDistinct tags
are_tags_unique_iff tags = (are_tags_unique-IsDistinct tags, IsDistinct-are_tags_unique tags)

-- With tags that pass the check, a machine is in one of its states exactly where `state_tag` returns
-- the tag of that state.
pub state_tag-is_in_state :
    {V C : Type 0} (tags : List ℕ) (m : Machine V C) (k : ℕ)
    → are_tags_unique tags ≡ true
    → m.state.alternative < length tags
    → k < length tags
    → (is_in_state k m ≡ true) ↔ (state_tag tags m ≡ get_elem? tags k)
state_tag-is_in_state tags m k unique held bound = (
  λ h. ap (get_elem? tags) ((==_iff m.state.alternative k).0 h),
  λ e. (==_iff m.state.alternative k).1 (are_tags_unique-IsDistinct tags unique _ _ held bound e),
)

-- ===== src/Concurrent/SpscQueue/Inv.antt =====
-- Which elements are in the queue, in terms of its indices and of where both threads stand.
use emblib.Base.{
  ℕ, zero, suc, ◌+◌, ◌-◌, ◌%◌, ◌^◌, ◌≤◌, ◌<◌, ◌≡◌, ◌∙◌, ap, sym, subst, Option, none, some, List,
  [], ◌∷◌, ◌++◌, arith, length, get_elem?, get_elem?_above, drop, ltb, if◌then◌else◌,
}
use emblib.Base.Bits.{bit_and_mask}
use native.Mathlib.Nat.{
  mod-mod_of_dvd, mod-add-mod, pow-le-pow_right, one-le-pow, pow-suc, dvd_refl, dvd_trans,
  dvd-mul_right,
}
use native.Mathlib.Decide.{dec_lt}
use Prim.Native.Nat.{◌∣◌}
use emblib.Container.Slots.{Slots, max_capacity}
use emblib.Container.View.{View, ring_index, View-ext, View-next}
use emblib.Container.Window.{get_elem?-suc}
use emblib.Concurrent.SpscQueue.{
  System, Producer, Consumer, loaded, room, built, pop_loaded, pop_found, pop_moved, pop_destroyed,
  peek_loaded, peek_found, clear_loaded, clear_at, index_mod, capacity, index_of,
}

-- The element that the producer has built and not yet published.
abbrev pub unpublished {ℓ} : {A : Type ℓ} → Producer A → List A
unpublished (built x b) = x ∷ []
unpublished _ = []

-- How many elements the consumer has destroyed and not yet taken off.
abbrev pub gone {ℓ} : {A : Type ℓ} → ℕ → Consumer A → ℕ
gone front (pop_destroyed f x) = 1
gone front (clear_at f b) = (f + index_mod - front) % index_mod
gone front _ = 0

-- How many elements a clear under way is to remove: those from the front to the index it has loaded.
abbrev pub mark {ℓ} : {A : Type ℓ} → ℕ → Consumer A → ℕ
mark front (clear_loaded b) = (b + index_mod - front) % index_mod
mark front (clear_at f b) = (b + index_mod - front) % index_mod
mark front _ = 0

-- What the slots hold from the front on.
abbrev pub remaining {ℓ} : {A : Type ℓ} → ℕ → List A → ℕ → Option A
remaining n zs j = if ltb j n then none else get_elem? zs j

-- What the producer's locals say: `b` is `back_`, and past the test there is room.
abbrev pub ProducerKnows {ℓ} : {A : Type ℓ} → ℕ → ℕ → ℕ → Producer A → Type 0
ProducerKnows cap back n Producer.idle = Unit
ProducerKnows cap back n (loaded x b) = b ≡ back
ProducerKnows cap back n (room x b) = (b ≡ back) × (n < cap)
ProducerKnows cap back n (built x b) = (b ≡ back) × (n < cap)

-- What the consumer's locals say.
module _ {ℓ} {A : Type ℓ} (front : ℕ) (xs : List A) where
  abbrev pub ConsumerKnows : Consumer A → Type ℓ
  ConsumerKnows Consumer.idle = Unit
  ConsumerKnows (pop_loaded f) = (f ≡ front) × Unit {ℓ}
  ConsumerKnows (pop_found f) = (f ≡ front) × (0 < length xs) × Unit {ℓ}
  ConsumerKnows (pop_moved f x) = (f ≡ front) × (get_elem? xs 0 ≡ some x)
  ConsumerKnows (pop_destroyed f x) = (f ≡ front) × (get_elem? xs 0 ≡ some x)
  ConsumerKnows (peek_loaded f) = (f ≡ front) × Unit {ℓ}
  ConsumerKnows (peek_found f) = (f ≡ front) × (0 < length xs) × Unit {ℓ}
  ConsumerKnows (clear_loaded b) =
      (n : ℕ) × (b ≡ (front + n) % index_mod) × (n ≤ length xs) × Unit {ℓ}
  ConsumerKnows (clear_at f b) =
      (n m : ℕ) × (b ≡ (front + n) % index_mod)
      × (f ≡ (front + m) % index_mod)
      × (m ≤ n)
      × (n ≤ length xs)
      × Unit {ℓ}

pub record Inv {ℓ} {A : Type ℓ} (k : ℕ) (s : System A) (xs : List A) : Type ℓ where
  pub width : k ≤ 31
  pub front_fits : s.front < index_mod
  pub back_at : s.back ≡ (s.front + length xs) % index_mod
  pub fits : length (xs ++ unpublished s.producer) ≤ capacity k
  pub view :
      View
        (capacity k)
        (s.front % capacity k)
        s.slots
        (remaining (gone s.front s.consumer) (xs ++ unpublished s.producer))
  pub producer_knows : ProducerKnows (capacity k) s.back (length xs) s.producer
  pub consumer_knows : ConsumerKnows s.front xs s.consumer

pow-dvd : (k d : ℕ) → 2 ^ k ∣ 2 ^ (d + k)
pow-dvd k zero = subst (λ n. 2 ^ k ∣ 2 ^ n) (omega arith) (dvd_refl (2 ^ k))
pow-dvd k (suc d) =
    subst (λ n. 2 ^ k ∣ 2 ^ n) (omega arith)
      (dvd_trans (2 ^ k) (pow-dvd k d)
        (subst (λ n. 2 ^ (d + k) ∣ n) (sym (pow-suc 2 (d + k))) (dvd-mul_right (2 ^ (d + k)) 2)))

module _ (k : ℕ) (h : k ≤ 31) where
  pub capacity-dvd : capacity k ∣ index_mod
  capacity-dvd =
      let e : 32 - k + k ≡ 32 = omega arith in subst (λ n. 2 ^ k ∣ 2 ^ n) e (pow-dvd k (32 - k))

  pub capacity-le : capacity k ≤ max_capacity
  capacity-le = pow-le-pow_right {n = 2} (omega arith) h

  pub capacity-pos : 0 < capacity k
  capacity-pos = one-le-pow k 2 (omega arith)

  -- The slot of an absolute index: the wrap at 2^32 and the mask agree with the ring.
  pub index_of_lem :
      (front n : ℕ)
      → index_of k ((front + n) % index_mod) ≡ ring_index (capacity k) (front % capacity k) n
  unfolding index_of
  index_of_lem front n =
      bit_and_mask ((front + n) % index_mod) k
      ∙ mod-mod_of_dvd (capacity k) (front + n) capacity-dvd
      ∙ sym (mod-add-mod front (capacity k) n)
      ∙ sym (mod-mod_of_dvd (capacity k) (front % capacity k + n) capacity-dvd)

  pub front_next :
      (front : ℕ)
      → (front + 1) % index_mod % capacity k ≡ ring_index (capacity k) (front % capacity k) 1
  front_next front =
      mod-mod_of_dvd (capacity k) (front + 1) capacity-dvd
      ∙ sym (mod-add-mod front (capacity k) 1)
      ∙ sym (mod-mod_of_dvd (capacity k) (front % capacity k + 1) capacity-dvd)

  -- Elements that the front passes leave the window.
  pub View-skip {ℓ} :
      {A : Type ℓ} {d : Slots A} (n front : ℕ) (zs : List A)
      → n ≤ length zs
      → length zs ≤ capacity k
      → View (capacity k) (front % capacity k) d (remaining n zs)
      → View (capacity k) ((front + n) % index_mod % capacity k) d (remaining 0 (drop n zs))
  View-skip {A} {d} zero front zs h le v =
      let e : front % capacity k ≡ (front + 0) % index_mod % capacity k =
        ap (λ n. n % capacity k) (omega arith)
        ∙ sym (mod-mod_of_dvd (capacity k) (front + 0) capacity-dvd) in
      subst (λ i. View {A = A} (capacity k) i d (remaining 0 zs)) e v
  View-skip (suc n) front [] h le v = absurd (omega arith)
  View-skip {A} {d} (suc n) front (z ∷ zs) h le v =
      let here : ring_index (capacity k) (front % capacity k) 1 ≡ (front + 1) % capacity k =
        sym (front_next front) ∙ mod-mod_of_dvd (capacity k) (front + 1) capacity-dvd in
      let there : (front + 1 + n) % index_mod % capacity k
          ≡ (front + suc n) % index_mod % capacity k =
        ap (λ n. n % index_mod % capacity k) (omega arith) in
      subst (λ i. View {A = A} (capacity k) i d (remaining 0 (drop n zs))) there
        (View-skip n (front + 1) zs (omega arith) (omega arith) (
          subst (λ i. View {A = A} (capacity k) i d (remaining n zs)) here
            (View-ext (View-next v) passed)))
    where
      passed :
          (j : ℕ)
          → j < capacity k
          → remaining (suc n) (z ∷ zs) (if ltb (j + 1) (capacity k) then j + 1 else 0)
            ≡ remaining n zs j
      passed j hj = elim (dec_lt (j + 1) (capacity k)) [
        | yes p ↦ elim (dec_lt j n) [
          | yes q ↦ ground arith
          | no q ↦ ground (arith, get_elem?-suc z zs j)
        ]
        | no p ↦ ground (arith, get_elem?_above zs j (omega arith))
      ]

-- ===== src/Controller/Limits.antt =====
-- The outputs of the controllers of emb/controller.hpp stay within their limits.
use emblib.Base.{◌≡◌, refl, ◌⊎◌, inl, inr, true, false, Bool-cases}
use emblib.Controller.{
  Numbers, Policy, PController, PiBase, BackcalcPi, ClampingPi, error_of, clamp, push_p,
  push_backcalc, proportional, integrated, limit, push_clamping,
}

module _ {T : Type 0} (num : Numbers T) where
  abbrev pub IsWithin : T → T → T → Type 0
  IsWithin low high v = (num.lt v low ≡ false) × (num.lt high v ≡ false)

  clamp-IsWithin :
      (v low high : T)
      → ((u : T) → num.lt u u ≡ false)
      → num.lt high low ≡ false
      → IsWithin low high (clamp num v low high)
  clamp-IsWithin v low high irrefl h = elim (Bool-cases (num.lt v low)) [
    | inl below ↦ rw below (irrefl low, h)
    | inr not_below ↦ elim (Bool-cases (num.lt high v)) [
      | inl above ↦ rw (not_below, above) (h, irrefl high)
      | inr not_above ↦ rw (not_below, not_above) (not_below, not_above)
    ]
  ]

  -- How a push treats the integral: the output is the sum of its parts; or it is a limit that the
  -- proportional part has not reached, and the integral is what is left up to the limit; or it is a
  -- limit that the proportional part reaches by itself, and the integral stays.
  abbrev pub DoesNotWindUp : T → PiBase T → PiBase T → Type 0
  DoesNotWindUp out_p before after =
      (after.out ≡ num.add out_p after.out_i)
      ⊎ ((after.out_i ≡ num.sub after.out out_p)
          × (((after.out ≡ before.upper_limit) × (num.lt out_p before.upper_limit ≡ true))
              ⊎ ((after.out ≡ before.lower_limit) × (num.lt before.lower_limit out_p ≡ true))))
      ⊎ ((after.out_i ≡ before.out_i)
          × (((after.out ≡ before.upper_limit) × (num.lt out_p before.upper_limit ≡ false))
              ⊎ ((after.out ≡ before.lower_limit) × (num.lt before.lower_limit out_p ≡ false))))

  limit_lem :
      (out_p out_i : T) (b : PiBase T)
      → ((u : T) → num.lt u u ≡ false)
      → num.lt b.upper_limit b.lower_limit ≡ false
      → IsWithin b.lower_limit b.upper_limit (limit num out_p out_i b).out
        × DoesNotWindUp out_p b (limit num out_p out_i b)
  limit_lem out_p out_i b irrefl h =
      elim (Bool-cases (num.lt b.upper_limit (num.add out_p out_i))) [
        | inl above ↦ elim (Bool-cases (num.lt out_p b.upper_limit)) [
          | inl room ↦
              rw (above, room) ((h, irrefl b.upper_limit), inr (inl (refl, inl (refl, refl))))
          | inr full ↦
              rw (above, full) ((h, irrefl b.upper_limit), inr (inr (refl, inl (refl, refl))))
        ]
        | inr not_above ↦ elim (Bool-cases (num.lt (num.add out_p out_i) b.lower_limit)) [
          | inl below ↦ elim (Bool-cases (num.lt b.lower_limit out_p)) [
            | inl room ↦
                rw (not_above, below, room)
                  ((irrefl b.lower_limit, h), inr (inl (refl, inr (refl, refl))))
            | inr full ↦
                rw (not_above, below, full)
                  ((irrefl b.lower_limit, h), inr (inr (refl, inr (refl, refl))))
          ]
          | inr not_below ↦ rw (not_above, not_below) ((not_below, not_above), inl refl)
        ]
      ]

  -- For values of which none is less than itself, as with floating-point numbers and their NaN, and for
  -- limits of which the upper is not less than the lower: after a push the output of each of the three
  -- controllers is neither less than its lower nor greater than its upper limit. The integral of the
  -- clamping controller does not wind up: the output is the sum of its two parts; or it is a limit, and
  -- the integral is what the proportional part leaves up to the limit, or, where the proportional part
  -- alone reaches the limit, what it was before.
  pub pushes_are_limited :
      (policy : Policy) (ref meas : T) (p : PController T) (c : BackcalcPi T) (k : ClampingPi T)
      → ((u : T) → num.lt u u ≡ false)
      → num.lt p.upper_limit p.lower_limit ≡ false
      → num.lt c.base.upper_limit c.base.lower_limit ≡ false
      → num.lt k.base.upper_limit k.base.lower_limit ≡ false
      → let k' = push_clamping num policy ref meas k in
        IsWithin p.lower_limit p.upper_limit (push_p num policy ref meas p).out
        × IsWithin c.base.lower_limit c.base.upper_limit
            (push_backcalc num policy ref meas c).base.out
        × IsWithin k.base.lower_limit k.base.upper_limit k'.base.out
        × DoesNotWindUp (proportional num k'.error k.base) k.base k'.base
  unfolding push_p push_backcalc push_clamping
  pushes_are_limited policy ref meas p c k irrefl hp hc hk =
      let error = error_of num policy ref meas in
      let (within, kept) =
        limit_lem (proportional num error k.base) (integrated num error k) k.base irrefl hk in
      (
        clamp-IsWithin _ p.lower_limit p.upper_limit irrefl hp,
        clamp-IsWithin _ c.base.lower_limit c.base.upper_limit irrefl hc,
        within,
        kept,
      )

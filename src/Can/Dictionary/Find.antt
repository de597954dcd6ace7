-- ===== src/Can/Dictionary/Find.antt =====
-- A lookup in the sorted dictionary finds exactly the entries that it was given.
use emblib.Base.{
  ◌≡◌, ◌↔◌, ◌⊎◌, inl, inr, ap, sym, subst, ◌∙◌, Bool, true, false, Bool-cases, Option, none, some,
  List, [], ◌∷◌, arith, if◌then◌else◌,
}
use emblib.Can.Od.{OdKey, OdEntry, key_lt, key_eq}
use emblib.Can.Dictionary.{insert_entry, init_dictionary, lower_bound, head_at, find}

pub key_eq-true : (a b : OdKey) → key_eq a b ≡ true → a ≡ b
key_eq-true a b h =
    let i : a.index ≡ b.index = ground arith in
    let j : a.subindex ≡ b.subindex = ground arith in λ k. record { index = i k; subindex = j k }

pub key_eq_refl : (a b : OdKey) → a ≡ b → key_eq a b ≡ true
key_eq_refl a b h =
    let i : a.index ≡ b.index = ap (λ k. k.index) h in
    let j : a.subindex ≡ b.subindex = ap (λ k. k.subindex) h in ground (arith, i, j)

key_lt-trans_not : (a b c : OdKey) → key_lt a b ≡ true → key_lt c b ≡ false → key_lt c a ≡ false
key_lt-trans_not a b c h g = ground arith

key_lt-antisym : (a b : OdKey) → key_lt a b ≡ false → key_lt b a ≡ false → key_eq b a ≡ true
key_lt-antisym a b h g = ground arith

key_lt_irrefl : (a b : OdKey) → a ≡ b → key_lt a b ≡ true → ⊥
key_lt_irrefl a b h lt =
    let i : a.index ≡ b.index = ap (λ k. k.index) h in
    let j : a.subindex ≡ b.subindex = ap (λ k. k.subindex) h in ground (arith, i, j)

true≢false : true ≡ false → ⊥
true≢false h = absurd (cc)

module _ {S : Type 0} where
  abbrev pub In : OdEntry S → List (OdEntry S) → Type 0
  In e [] = ⊥
  In e (d ∷ ds) = (d ≡ e) ⊎ In e ds

  -- No key stands for two entries.
  abbrev pub KeysDistinct : List (OdEntry S) → Type 0
  KeysDistinct es = (d e : OdEntry S) → In d es → In e es → d.key ≡ e.key → d ≡ e

  -- No entry is before one that precedes it.
  abbrev pub Sorted : List (OdEntry S) → Type 0
  Sorted [] = Unit
  Sorted (e ∷ es) = ((d : OdEntry S) → In d es → key_lt d.key e.key ≡ false) × Sorted es

  insert_cases :
      (e c : OdEntry S) (cs : List (OdEntry S))
      → ((key_lt c.key e.key ≡ true) × (insert_entry e (c ∷ cs) ≡ c ∷ insert_entry e cs))
        ⊎ ((key_lt c.key e.key ≡ false) × (insert_entry e (c ∷ cs) ≡ e ∷ c ∷ cs))
  insert_cases e c cs =
      let branch : Bool → List (OdEntry S) = λ b. if b then c ∷ insert_entry e cs else e ∷ c ∷ cs in
      elim (Bool-cases (key_lt c.key e.key)) [
        | inl lt ↦ inl (lt, ap branch lt)
        | inr ge ↦ inr (ge, ap branch ge)
      ]

  insert_entry-In :
      (e d : OdEntry S) (es : List (OdEntry S)) → In d (insert_entry e es) ↔ In d (e ∷ es)
  insert_entry-In e d [] = (λ h. h, λ h. h)
  insert_entry-In e d (c ∷ cs) =
      let (to, of) = insert_entry-In e d cs in
      elim (insert_cases e c cs) [
        | inl (lt, same) ↦
            subst (λ l. In d l ↔ In d (e ∷ c ∷ cs)) (sym same)
              (
                λ h. elim h [
                  | inl x ↦ inr (inl x)
                  | inr x ↦ elim (to x) [ inl y ↦ inl y | inr y ↦ inr (inr y) ]
                ],
                λ h. elim h [
                  | inl x ↦ inr (of (inl x))
                  | inr x ↦ elim x [ inl y ↦ inl y | inr y ↦ inr (of (inr y)) ]
                ],
              )
        | inr (ge, same) ↦ subst (λ l. In d l ↔ In d (e ∷ c ∷ cs)) (sym same) (λ h. h, λ h. h)
      ]

  insert_entry-Sorted :
      (e : OdEntry S) (es : List (OdEntry S)) → Sorted es → Sorted (insert_entry e es)
  insert_entry-Sorted e [] h = (λ d absent. absurd absent, tt)
  insert_entry-Sorted e (c ∷ cs) (first, rest) = elim (insert_cases e c cs) [
    | inl (lt, same) ↦ subst Sorted (sym same) (
      λ d found. elim ((insert_entry-In e d cs).0 found) [
        | inl x ↦ subst (λ a. key_lt a.key c.key ≡ false) x (ground arith)
        | inr x ↦ first d x
      ],
      insert_entry-Sorted e cs rest,
    )
    | inr (ge, same) ↦ subst Sorted (sym same) (
      λ d found. elim found [
        | inl x ↦ subst (λ a. key_lt a.key e.key ≡ false) x ge
        | inr x ↦ let after = first d x in ground arith
      ],
      (first, rest),
    )
  ]

  init_dictionary-In : (e : OdEntry S) (es : List (OdEntry S)) → In e (init_dictionary es) ↔ In e es
  unfolding init_dictionary
  init_dictionary-In e [] = (λ h. h, λ h. h)
  init_dictionary-In e (d ∷ ds) =
      let (to, of) = insert_entry-In d e (init_dictionary ds) in
      let (to', of') = init_dictionary-In e ds in
      (
        λ h. elim (to h) [ inl x ↦ inl x | inr x ↦ inr (to' x) ],
        λ h. of (elim h [ inl x ↦ inl x | inr x ↦ inr (of' x) ]),
      )

  pub init_dictionary-Sorted : (es : List (OdEntry S)) → Sorted (init_dictionary es)
  unfolding init_dictionary
  init_dictionary-Sorted [] = tt
  init_dictionary-Sorted (e ∷ es) =
      insert_entry-Sorted e (init_dictionary es) (init_dictionary-Sorted es)

  -- Where the search stands on an entry, and what a lookup makes of it.
  find_cases :
      (e : OdEntry S) (es : List (OdEntry S)) (key : OdKey)
      → ((key_lt e.key key ≡ true) × (find (e ∷ es) key ≡ find es key))
        ⊎ ((key_lt e.key key ≡ false)
            × (((key_eq key e.key ≡ true) × (find (e ∷ es) key ≡ some e))
                ⊎ ((key_eq key e.key ≡ false) × (find (e ∷ es) key ≡ none))))
  unfolding find lower_bound
  find_cases e es key =
      let search : Bool → Option (OdEntry S) =
        λ b. head_at key (if b then lower_bound es key else e ∷ es) in
      let test : Bool → Option (OdEntry S) = λ b. if b then some e else none in
      elim (Bool-cases (key_lt e.key key)) [
        | inl lt ↦ inl (lt, ap search lt)
        | inr ge ↦ inr (
          ge,
          elim (Bool-cases (key_eq key e.key)) [
            | inl eq ↦ inl (eq, ap search ge ∙ ap test eq)
            | inr ne ↦ inr (ne, ap search ge ∙ ap test ne)
          ],
        )
      ]

  pub find-some :
      (es : List (OdEntry S)) (key : OdKey) (e : OdEntry S)
      → find es key ≡ some e
      → In e es × (e.key ≡ key)
  unfolding find lower_bound
  find-some [] key e h = absurd (cc)
  find-some (d ∷ ds) key e h = elim (find_cases d ds key) [
    | inl (lt, same) ↦ let (found, k) = find-some ds key e (sym same ∙ h) in (inr found, k)
    | inr (ge, inl (eq, same)) ↦
        let here : d ≡ e = cc in
        (inl here, ap (λ a. a.key) (sym here) ∙ sym (key_eq-true key d.key eq))
    | inr (ge, inr (ne, same)) ↦ absurd (cc)
  ]

  find-In :
      (es : List (OdEntry S)) (key : OdKey) (e : OdEntry S)
      → Sorted es
      → In e es
      → e.key ≡ key
      → (d : OdEntry S) × (find es key ≡ some d)
  find-In [] key e sorted absent k = absurd absent
  find-In (c ∷ cs) key e (first, rest) found k = elim (find_cases c cs key) [
    | inl (lt, same) ↦ elim found [
      | inl here ↦ absurd (key_lt_irrefl c.key key (ap (λ a. a.key) here ∙ k) lt)
      | inr later ↦ let (d, h) = find-In cs key e rest later k in (d, same ∙ h)
    ]
    | inr (ge, inl (eq, same)) ↦ (c, same)
    | inr (ge, inr (ne, same)) ↦ elim found [
      | inl here ↦
          let same_key = key_eq_refl key c.key (sym k ∙ ap (λ a. a.key) (sym here)) in
          absurd (true≢false (sym same_key ∙ ne))
      | inr later ↦
          let not_before = subst (λ a. key_lt a c.key ≡ false) k (first e later) in
          absurd (true≢false (sym (key_lt-antisym c.key key ge not_before) ∙ ne))
    ]
  ]

  -- If no key stands for two entries, a lookup in the sorted dictionary returns an entry exactly
  -- if the entry is in the dictionary as it was given and has the key that is asked for.
  pub find_exact :
      (es : List (OdEntry S)) (key : OdKey) (e : OdEntry S)
      → KeysDistinct es
      → (find (init_dictionary es) key ≡ some e) ↔ (In e es × (e.key ≡ key))
  find_exact es key e distinct = (
    λ h.
        let (found, k) = find-some (init_dictionary es) key e h in
        ((init_dictionary-In e es).0 found, k),
    λ (found, k).
        let (d, h) =
          find-In (init_dictionary es) key e (init_dictionary-Sorted es)
            ((init_dictionary-In e es).1 found) k in
        let (there, k') = find-some (init_dictionary es) key d h in
        let same : d ≡ e = distinct d e ((init_dictionary-In d es).0 there) found (k' ∙ sym k) in
        h ∙ ap some same,
  )

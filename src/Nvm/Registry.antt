-- ===== src/Nvm/Registry.antt =====
-- What `get` returns after `set`, `reset` and `reset_all`.
use emblib.Base.{
  ℕ, zero, suc, ◌+◌, ◌≤◌, ◌≡◌, refl, ap, sym, subst, ◌∙◌, ◌⊎◌, inl, some, List, [], ◌∷◌, arith,
  length, get_elem?, if◌then◌else◌,
}
use emblib.Base.Expected.{Expected, ok, unexpected}
use emblib.Nvm.{
  Error, hash_mismatch, crc_mismatch, Bytes, Parameter, Functions, Storage, entry_size, offset_of,
  get, set, reset, reset_all, and_then, check_crc,
}
use emblib.Nvm.Layout.{bytes_eq_refl}
use emblib.Nvm.Reads.{StorageLaws, SizeLaws, swap, part_apart, outcome, get-outcome, write_apart}

-- Each default value has the size of its parameter.
abbrev pub WellSized : List Parameter → Type 0
WellSized [] = Unit
WellSized (p ∷ ps) = (length p.default_value ≡ p.value_size) × WellSized ps

module _ {M : Type 0} (f : Functions) (storage : Storage M) where
  and_then_ok :
      (r : Expected Error (Unit {0}) × M) (next : M → Expected Error (Unit {0}) × M)
      → (and_then f storage r next).0 ≡ ok tt
      → (r.0 ≡ ok tt) × (and_then f storage r next ≡ next r.1)
  and_then_ok (unexpected e, m) next h = absurd (cc)
  and_then_ok (ok tt, m) next h = (refl, refl)

  and_then_keeps :
      {X : Type 0} (observe : M → X) (x : X) (r : Expected Error (Unit {0}) × M)
      (next : M → Expected Error (Unit {0}) × M)
      → observe r.1 ≡ x
      → ((m : M) → observe m ≡ x → observe (next m).1 ≡ x)
      → observe (and_then f storage r next).1 ≡ x
  and_then_keeps observe x (unexpected e, m) next h k = h
  and_then_keeps observe x (ok tt, m) next h k = k m h

  module _ (laws : StorageLaws storage) (sizes : SizeLaws f) where
    -- A `set` whose entry is apart from another, even one that fails on the way, leaves what `get`
    -- returns for the other.
    pub get-set_apart :
        (q p : Parameter) (off' off : ℕ) (value : Bytes) (m : M)
        → length value ≡ p.value_size
        → (off' + entry_size f q ≤ off) ⊎ (off + entry_size f p ≤ off')
        → get f storage q off' (set f storage p off value m).1 ≡ get f storage q off' m
    unfolding set
    get-set_apart q p off' off value m size apart =
        let h = f.hash p.name in
        let c = f.crc h value in
        let l0 = off + f.hash_size in
        let l1 = l0 + p.value_size in
        let hash_size : length h ≡ f.hash_size = sizes.hash_length p.name in
        let crc_size : length c ≡ f.crc_size = sizes.crc_length h value in
        let apart0 =
          part_apart off (entry_size f p) off' (entry_size f q) off (length h) (swap apart)
            (omega arith) (omega arith) in
        let apart1 =
          part_apart off (entry_size f p) off' (entry_size f q) l0 (length value) (swap apart)
            (omega arith) (omega arith) in
        let apart2 =
          part_apart off (entry_size f p) off' (entry_size f q) l1 (length c) (swap apart)
            (omega arith) (omega arith) in
        let keeps : M → Expected Error Bytes = get f storage q off' in
        let before : Expected Error Bytes = get f storage q off' m in
        and_then_keeps keeps before (storage.write off h m) _
          (write_apart f storage laws sizes q off' off h m (swap apart0))
          (λ m1 e1.
            and_then_keeps keeps before (storage.write l0 value m1) _
              (write_apart f storage laws sizes q off' l0 value m1 (swap apart1) ∙ e1)
              (λ m2 e2. write_apart f storage laws sizes q off' l1 c m2 (swap apart2) ∙ e2))

    -- After a `set` that succeeds, `get` returns the value.
    pub get-set :
        (p : Parameter) (off : ℕ) (value : Bytes) (m : M)
        → length value ≡ p.value_size
        → (set f storage p off value m).0 ≡ ok tt
        → get f storage p off (set f storage p off value m).1 ≡ ok value
    unfolding set
    get-set p off value m size done =
        let h = f.hash p.name in
        let c = f.crc h value in
        let l0 = off + f.hash_size in
        let l1 = l0 + p.value_size in
        let hash_size : length h ≡ f.hash_size = sizes.hash_length p.name in
        let crc_size : length c ≡ f.crc_size = sizes.crc_length h value in
        let w0 = storage.write off h m in
        let w1 = storage.write l0 value w0.1 in
        let w2 = storage.write l1 c w1.1 in
        let (ok0, same0) = and_then_ok w0 _ done in
        let (ok1, same1) = and_then_ok w1 _ (ap (λ r. r.0) (sym same0) ∙ done) in
        let left : (set f storage p off value m).1 ≡ w2.1 =
          ap (λ r. r.1) same0 ∙ ap (λ r. r.1) same1 in
        let ok2 : w2.0 ≡ ok tt = ap (λ r. r.0) (sym same1) ∙ ap (λ r. r.0) (sym same0) ∙ done in
        let r0 : storage.read off f.hash_size w2.1 ≡ ok h =
          laws.read_apart l1 c w1.1 off f.hash_size (inl (omega arith))
          ∙ laws.read_apart l0 value w0.1 off f.hash_size (inl (omega arith))
          ∙ ap (λ n. storage.read off n w0.1) (sym hash_size)
          ∙ laws.read_back off h m ok0 in
        let r1 : storage.read l0 p.value_size w2.1 ≡ ok value =
          laws.read_apart l1 c w1.1 l0 p.value_size (inl (omega arith))
          ∙ ap (λ n. storage.read l0 n w1.1) (sym size)
          ∙ laws.read_back l0 value w0.1 ok1 in
        let r2 : storage.read l1 f.crc_size w2.1 ≡ ok c =
          ap (λ n. storage.read l1 n w2.1) (sym crc_size) ∙ laws.read_back l1 c w1.1 ok2 in
        ap (get f storage p off) left
        ∙ get-outcome f storage p off w2.1
        ∙ ap
            (λ x.
              outcome f storage p x (storage.read l0 p.value_size w2.1)
                (storage.read l1 f.crc_size w2.1))
            r0
        ∙ ap (λ x. outcome f storage p (ok h) x (storage.read l1 f.crc_size w2.1)) r1
        ∙ ap (λ x. outcome f storage p (ok h) (ok value) x) r2
        ∙ ap (λ b. if b then check_crc f storage p value (ok c) else unexpected hash_mismatch)
            (bytes_eq_refl h)
        ∙ ap (λ b. if b then ok value else unexpected crc_mismatch) (bytes_eq_refl c)

    -- What is before the entries that are reset stays.
    reset_all_keeps :
        (q : Parameter) (off' base : ℕ) (ps : List Parameter) (m : M)
        → WellSized ps
        → off' + entry_size f q ≤ base
        → get f storage q off' (reset_all f storage base ps m).1 ≡ get f storage q off' m
    unfolding reset_all reset
    reset_all_keeps q off' base [] m sized before = refl
    reset_all_keeps q off' base (p ∷ ps) m sized before =
        and_then_keeps (get f storage q off') _ (reset f storage p base m) _
          (get-set_apart q p off' base p.default_value m sized.0 (inl before))
          (λ m' e. reset_all_keeps q off' (base + entry_size f p) ps m' sized.1 (omega arith) ∙ e)

    -- After a `reset_all` that succeeds, `get` returns its default value for each parameter of the
    -- layout.
    pub get-reset_all :
        (base : ℕ) (ps : List Parameter) (i : ℕ) (p : Parameter) (m : M)
        → WellSized ps
        → get_elem? ps i ≡ some p
        → (reset_all f storage base ps m).0 ≡ ok tt
        → get f storage p (offset_of f base ps i) (reset_all f storage base ps m).1
          ≡ ok p.default_value
    unfolding reset_all reset offset_of
    get-reset_all base [] i p m sized at done = absurd (cc)
    get-reset_all base (q ∷ ps) zero p m sized at done =
        let (ok0, same) = and_then_ok (reset f storage q base m) _ done in
        let here : q ≡ p = cc in
        ap (λ r. get f storage p base r.1) same
        ∙ subst
            (λ p.
              get f storage p base
                (reset_all f storage (base + entry_size f q) ps (reset f storage q base m).1).1
              ≡ ok p.default_value)
            here
            (reset_all_keeps q base (base + entry_size f q) ps (reset f storage q base m).1 sized.1
                (omega arith)
              ∙ get-set q base q.default_value m sized.0 ok0)
    get-reset_all base (q ∷ ps) (suc i) p m sized at done =
        let (ok0, same) = and_then_ok (reset f storage q base m) _ done in
        ap (λ r. get f storage p (offset_of f (base + entry_size f q) ps i) r.1) same
        ∙ get-reset_all (base + entry_size f q) ps i p (reset f storage q base m).1 sized.1 at
            (ap (λ r. r.0) (sym same) ∙ done)

-- ===== src/Base/Expected.antt =====
-- `std::expected<T, E>`.

pub data Expected {ℓ} (E : Type 0) (A : Type ℓ) : Type ℓ where
  ok : A → Expected E A
  unexpected : E → Expected E A

infixl 5 ◌>>=◌
abbrev pub ◌>>=◌ {ℓ κ} :
    {E : Type 0} {A : Type ℓ} {B : Type κ} → Expected E A → (A → Expected E B) → Expected E B
ok a >>= f = f a
unexpected e >>= f = unexpected e

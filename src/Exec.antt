-- ===== src/Exec.antt =====
-- Methods that change an object and may raise: a call gives its result beside the state that it
-- leaves, also when it raises, since what was written before a raise stays written.
use autonomous_quant_tra.Base.{Bool, Option, none, some, if◌then◌else◌, ◌≡◌, refl, ◌⊎◌, inl, inr}

pub data Result {ℓ κ} (E : Type ℓ) (A : Type κ) : Type (ℓ ⊔ κ) where
  ok : A → Result E A
  err : E → Result E A

-- What is returned has the property; nothing is said of what is raised.
abbrev pub OnOk {ℓ κ} : {E A : Type ℓ} → (A → Type κ) → Result E A → Type κ
OnOk P (ok a) = P a
OnOk P (err e) = Unit

abbrev pub Exec {ℓ} : Type ℓ → Type ℓ → Type ℓ → Type ℓ
Exec E S A = S → Result E A × S

module _ {ℓ} {E S A : Type ℓ} where
  abbrev pub pure : A → Exec E S A
  pure a s = (ok a, s)

  abbrev pub raise : E → Exec E S A
  raise e s = (err e, s)

  abbrev pub gets : (S → A) → Exec E S A
  gets f s = (ok (f s), s)

  abbrev pub or_raise : Option A → E → Exec E S A
  or_raise none e = raise e
  or_raise (some a) e = pure a

module _ {ℓ} {E S A B : Type ℓ} where
  infixl 5 ◌>>=◌ ◌>>◌
  abbrev pub ◌>>=◌ : Exec E S A → (A → Exec E S B) → Exec E S B
  ◌>>=◌ m f s = let (r, s') = m s in elim r [ ok a ↦ f a s' | err e ↦ (err e, s') ]

  abbrev pub ◌>>◌ : Exec E S A → Exec E S B → Exec E S B
  m >> k = m >>= λ _. k

module _ {ℓ} {E S : Type ℓ} where
  abbrev pub raise_if : Bool → E → Exec E S Unit
  raise_if c e s = (if c then err e else ok tt, s)

  abbrev pub modify : (S → S) → Exec E S Unit
  modify f s = (ok tt, f s)

pub Result-cases {ℓ κ} :
    {E : Type ℓ} {A : Type κ} (r : Result E A) → ((a : A) × (r ≡ ok a)) ⊎ ((e : E) × (r ≡ err e))
Result-cases (ok a) = inl (a, refl)
Result-cases (err e) = inr (e, refl)

-- A call that raises ends the method.
pub bind-err {ℓ} :
    {E S A B : Type ℓ} (m : Exec E S A) (k : A → Exec E S B) (s : S) {e : E}
    → (m s).0 ≡ err e
    → (m >>= k) s ≡ (err e, (m s).1)
bind-err m k s h = rw (h, ◌>>=◌)

pub bind-ok {ℓ} :
    {E S A B : Type ℓ} (m : Exec E S A) (k : A → Exec E S B) (s : S) {a : A}
    → (m s).0 ≡ ok a
    → (m >>= k) s ≡ k a (m s).1
bind-ok m k s h = rw (h, ◌>>=◌)

-- What a call keeps and what follows it keeps holds after both.
pub bind-keeps {ℓ κ} :
    {E S A B : Type ℓ} (P : S → Type κ) (m : Exec E S A) (k : A → Exec E S B) (s : S)
    → P (m s).1
    → ((a : A) → P (k a (m s).1).1)
    → P ((m >>= k) s).1
bind-keeps P m k s first next = elim (Result-cases (m s).0) [
  | inl (a, h) ↦ rw (bind-ok m k s h) (next a)
  | inr (e, h) ↦ rw (bind-err m k s h) first
]

pub OnOk_of {ℓ κ} :
    {E A : Type ℓ} (P : A → Type κ) {r : Result E A} {a : A} → r ≡ ok a → OnOk P r → P a
OnOk_of P h p = rw h at p

pub OnOk-mono {ℓ κ} :
    {E A : Type ℓ} (P Q : A → Type κ) (r : Result E A) → ((a : A) → P a → Q a) → OnOk P r → OnOk Q r
OnOk-mono P Q (ok a) h p = h a p
OnOk-mono P Q (err e) h p = tt

pub bind-OnOk {ℓ κ} :
    {E S A B : Type ℓ} (P : B → Type κ) (m : Exec E S A) (k : A → Exec E S B) (s : S)
    → ((a : A) → (m s).0 ≡ ok a → OnOk P (k a (m s).1).0)
    → OnOk P ((m >>= k) s).0
bind-OnOk P m k s next = elim (Result-cases (m s).0) [
  | inl (a, h) ↦ rw (bind-ok m k s h) (next a h)
  | inr (e, h) ↦ rw (bind-err m k s h) tt
]

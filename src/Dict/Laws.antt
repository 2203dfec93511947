-- ===== src/Dict/Laws.antt =====
-- What a lookup finds after a write or a deletion, and predicates on every stored value.
use autonomous_quant_tra.Base.{
  ◌≡◌, refl, none, some, [], ◌∷◌, ◌++◌, arith, Eq, ◌==◌, if◌then◌else◌, Bool-cases, inl, inr,
}
use mathlib.Core.Path.{subst}
use mathlib.Core.Option.{some-injective}
use autonomous_quant_tra.Dict.{Dict, lookup, insert, erase}

module _ {ℓ κ} {K : Type ℓ} ⦃e : Eq K⦄ {V : Type κ} where
  -- No key is stored twice, as in every dict.
  abbrev pub IsDict : Dict K V → Type κ
  IsDict [] = Unit
  IsDict ((k, v) ∷ d) = (lookup k d ≡ none) × IsDict d

  -- Every stored value.
  abbrev pub AllValues {μ} : (V → Type μ) → Dict K V → Type μ
  AllValues P [] = Unit
  AllValues P ((k, v) ∷ d) = P v × AllValues P d

  pub lookup-insert :
      (j k : K) (v : V) (d : Dict K V)
      → lookup j (insert k v d) ≡ (if j == k then some v else lookup j d)
  unfolding lookup insert
  lookup-insert j k v [] = refl
  lookup-insert j k v ((i, w) ∷ d) =
      ground (arith, e.beq_iff j k, e.beq_iff k i, e.beq_iff j i, lookup-insert j k v d)

  pub lookup-insert_self : (k : K) (v : V) (d : Dict K V) → lookup k (insert k v d) ≡ some v
  lookup-insert_self k v d = ground (arith, lookup-insert k k v d, e.beq_iff k k)

  pub lookup-erase :
      (j k : K) (d : Dict K V)
      → IsDict d
      → lookup j (erase k d) ≡ (if j == k then none else lookup j d)
  unfolding lookup erase
  lookup-erase j k [] u = ground arith
  lookup-erase j k ((i, w) ∷ d) u =
      ground (arith, e.beq_iff j k, e.beq_iff k i, e.beq_iff j i, lookup-erase j k d u.1)

  pub insert-IsDict : (k : K) (v : V) (d : Dict K V) → IsDict d → IsDict (insert k v d)
  unfolding insert lookup
  insert-IsDict k v [] u = (refl, tt)
  insert-IsDict k v ((i, w) ∷ d) u =
      ground (arith, e.beq_iff k i, e.beq_iff i k, insert-IsDict k v d u.1, lookup-insert i k v d)

  pub erase-IsDict : (k : K) (d : Dict K V) → IsDict d → IsDict (erase k d)
  unfolding erase lookup
  erase-IsDict k [] u = tt
  erase-IsDict k ((i, w) ∷ d) u =
      ground (arith, e.beq_iff k i, e.beq_iff i k, erase-IsDict k d u.1, lookup-erase i k d u.1)

  -- A new key goes to the end.
  pub insert_new :
      (k : K) (v : V) (d : Dict K V) → lookup k d ≡ none → insert k v d ≡ d ++ (k, v) ∷ []
  unfolding insert lookup
  insert_new k v [] h = refl
  insert_new k v ((i, w) ∷ d) h = ground (arith, insert_new k v d)

  -- Deleting a key that was new brings the dictionary back.
  pub erase-insert_new :
      (k : K) (v : V) (d : Dict K V) → lookup k d ≡ none → erase k (insert k v d) ≡ d
  unfolding insert erase lookup
  erase-insert_new k v [] h = ground (arith, e.beq_iff k k)
  erase-insert_new k v ((i, w) ∷ d) h = ground (arith, erase-insert_new k v d)

  module _ {μ} (P : V → Type μ) where
    pub insert-AllValues :
        (k : K) (v : V) (d : Dict K V) → P v → AllValues P d → AllValues P (insert k v d)
    unfolding insert
    insert-AllValues k v [] p h = (p, tt)
    insert-AllValues k v ((i, w) ∷ d) p h = elim (Bool-cases (k == i)) [
      | inl same ↦ rw same (p, h.1)
      | inr other ↦ rw other (h.0, insert-AllValues k v d p h.1)
    ]

    pub erase-AllValues : (k : K) (d : Dict K V) → AllValues P d → AllValues P (erase k d)
    unfolding erase
    erase-AllValues k [] h = tt
    erase-AllValues k ((i, w) ∷ d) h = elim (Bool-cases (k == i)) [
      | inl same ↦ rw same h.1
      | inr other ↦ rw other (h.0, erase-AllValues k d h.1)
    ]

    pub lookup-AllValues :
        (k : K) (d : Dict K V) {v : V} → AllValues P d → lookup k d ≡ some v → P v
    unfolding lookup
    lookup-AllValues k [] h q = cc
    lookup-AllValues k ((i, w) ∷ d) h q = elim (Bool-cases (k == i)) [
      | inl same ↦ subst P (some-injective w _ (rw same at q)) h.0
      | inr other ↦ lookup-AllValues k d h.1 (rw other at q)
    ]

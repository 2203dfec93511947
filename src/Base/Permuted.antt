-- ===== src/Base/Permuted.antt =====
-- Sorting forgets the order in which elements that differ were given.
use mathlib.Core.Path.{◌≡◌, refl, ap, subst, ◌∙◌}
use mathlib.Core.Logic.{◌⊎◌, inl, inr}
use mathlib.Core.Bool.{Bool, true, false}
use mathlib.Core.List.{List, [], ◌∷◌}
use mathlib.Core.List.Permᴰ
use mathlib.Core.List.Permᴰ.{Permᴰ}
use native.Mathlib.Omega.{arith}
use autonomous_quant_tra.Base.Tests.{Bool-cases}
use autonomous_quant_tra.Base.Lists.{All, keep}
use autonomous_quant_tra.Base.Sort.{sorted, insert_sorted}

module _ {ℓ κ} {A : Type ℓ} (P : A → Type κ) where
  pub All-permuted : {xs ys : List A} → Permᴰ xs ys → All P xs → All P ys
  All-permuted Permᴰ.nil h = h
  All-permuted (Permᴰ.cons e d) h = (subst P e h.0, All-permuted d h.1)
  All-permuted (Permᴰ.swap e f) h = (subst P f h.1.0, (subst P e h.0, h.1.1))
  All-permuted (Permᴰ.trans c d) h = All-permuted d (All-permuted c h)

  pub All-keep : (p : A → Bool) (xs : List A) → All P xs → All P (keep p xs)
  All-keep p [] h = tt
  All-keep p (x ∷ xs) h = elim (Bool-cases (p x)) [
    | inl kept ↦ rw kept (h.0, All-keep p xs h.1)
    | inr dropped ↦ rw dropped (All-keep p xs h.1)
  ]

module _ {ℓ} {A : Type ℓ} (p : A → Bool) where
  pub keep_permuted : {xs ys : List A} → Permᴰ xs ys → Permᴰ (keep p xs) (keep p ys)
  keep_permuted Permᴰ.nil = Permᴰ.nil
  keep_permuted (Permᴰ.cons {a = a} {b = b} e d) = elim (Bool-cases (p b)) [
    | inl kept ↦ rw (e, kept) (Permᴰ.cons refl (keep_permuted d))
    | inr dropped ↦ rw (e, dropped) (keep_permuted d)
  ]
  keep_permuted (Permᴰ.swap {a = a} {b = b} {a' = a'} {b' = b'} {l = l} e f) =
      rw (e, f)
        (elim (Bool-cases (p a')) [
          | inl kept ↦ elim (Bool-cases (p b')) [
            | inl kept' ↦ rw (kept, kept') (Permᴰ.swap refl refl)
            | inr dropped' ↦ rw (kept, dropped') (Permᴰ.refl (a' ∷ keep p l))
          ]
          | inr dropped ↦ elim (Bool-cases (p b')) [
            | inl kept' ↦ rw (dropped, kept') (Permᴰ.refl (b' ∷ keep p l))
            | inr dropped' ↦ rw (dropped, dropped') (Permᴰ.refl (keep p l))
          ]
        ])
  keep_permuted (Permᴰ.trans c d) = Permᴰ.trans (keep_permuted c) (keep_permuted d)

module _ {ℓ} {A : Type ℓ} (precedes : A → A → Bool) where
  -- One of the two precedes the other.
  abbrev pub Apart : A → A → Type 0
  Apart x y = (precedes x y ≡ true) ⊎ (precedes y x ≡ true)

  abbrev pub AllApart : List A → Type ℓ
  AllApart [] = Unit
  AllApart (x ∷ xs) = All (Apart x) xs × AllApart xs

  module _ (asym : (a b : A) → precedes a b ≡ true → precedes b a ≡ false)
      (trans : (a b c : A) → precedes a b ≡ true → precedes b c ≡ true → precedes a c ≡ true) where
    insert_swap :
        (x y : A) (l : List A)
        → Apart x y
        → insert_sorted precedes x (insert_sorted precedes y l)
          ≡ insert_sorted precedes y (insert_sorted precedes x l)
    insert_swap x y [] h = ground (arith, asym x y, asym y x)
    insert_swap x y (z ∷ l) h =
        ground (arith, asym x y, asym y x, trans z x y, trans z y x, insert_swap x y l h)

    Apart-sym : (x y : A) → Apart x y → Apart y x
    Apart-sym x y (inl h) = inr h
    Apart-sym x y (inr h) = inl h

    AllApart-permuted : {xs ys : List A} → Permᴰ xs ys → AllApart xs → AllApart ys
    AllApart-permuted Permᴰ.nil h = h
    AllApart-permuted (Permᴰ.cons {a = a} e d) h =
        rw (← e) (All-permuted (Apart a) d h.0, AllApart-permuted d h.1)
    AllApart-permuted (Permᴰ.swap {a = a} {b = b} {b' = b'} {l = l} e f) h =
        subst (λ c. AllApart (c ∷ b' ∷ l)) f
          (subst (λ c. AllApart (b ∷ c ∷ l)) e ((Apart-sym a b h.0.0, h.1.0), (h.0.1, h.1.1)))
    AllApart-permuted (Permᴰ.trans c d) h = AllApart-permuted d (AllApart-permuted c h)

    -- Elements of which one precedes the other are sorted the same in whatever order they are given.
    pub sorted_permuted :
        {xs ys : List A} → Permᴰ xs ys → AllApart xs → sorted precedes xs ≡ sorted precedes ys
    sorted_permuted Permᴰ.nil h = refl
    sorted_permuted (Permᴰ.cons {a = a} {l₂ = l₂} e d) h =
        rw (sorted_permuted d h.1) (ap (λ x. insert_sorted precedes x (sorted precedes l₂)) e)
    sorted_permuted (Permᴰ.swap {a = a} {b = b} {l = l} e f) h =
        rw (← e, ← f) (insert_swap a b (sorted precedes l) h.0.0)
    sorted_permuted (Permᴰ.trans c d) h =
        sorted_permuted c h ∙ sorted_permuted d (AllApart-permuted c h)

  insert_sorted-Permᴰ : (x : A) (ys : List A) → Permᴰ (x ∷ ys) (insert_sorted precedes x ys)
  insert_sorted-Permᴰ x [] = Permᴰ.refl (x ∷ [])
  insert_sorted-Permᴰ x (y ∷ ys) = elim (Bool-cases (precedes y x)) [
    | inr first ↦ rw first (Permᴰ.refl (x ∷ y ∷ ys))
    | inl later ↦
        rw later (Permᴰ.trans (Permᴰ.swap refl refl) (Permᴰ.cons refl (insert_sorted-Permᴰ x ys)))
  ]

  pub sorted-Permᴰ : (xs : List A) → Permᴰ xs (sorted precedes xs)
  sorted-Permᴰ [] = Permᴰ.nil
  sorted-Permᴰ (x ∷ xs) =
      Permᴰ.trans (Permᴰ.cons refl (sorted-Permᴰ xs)) (insert_sorted-Permᴰ x (sorted precedes xs))

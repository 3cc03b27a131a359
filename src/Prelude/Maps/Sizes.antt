-- ===== src/Prelude/Maps/Sizes.antt =====
-- How insertion and removal change the number of entries.
use Prim.Native.String.{String}
use Prim.Native.Nat.{suc}
use text.Mathlib.Text.{◌==◌}
use text.Mathlib.TextEquality.{eq_iff}
use mathlib.Core.Path.{◌≡◌, refl, ap, subst, ◌∙◌}
use mathlib.Core.Logic.{inl, inr}
use mathlib.Core.Bool.{false}
use mathlib.Core.Option.{none, some}
use mathlib.Core.List.{List, [], ◌∷◌}
use native.Mathlib.Omega.{arith}
use poolbeg.Prelude.Tests.{Bool-cases}
use poolbeg.Prelude.Lists.{length, All}
use poolbeg.Prelude.Maps.{lookup, insert, remove, lookup-insert, lookup-remove}

flipped : (k j : String) → (j == k) ≡ false → (k == j) ≡ false
flipped k j e = ground (arith, eq_iff k j, eq_iff j k)

module _ {ℓ} {V : Type ℓ} where
  -- No key stands in two entries.
  abbrev pub IsUnique : List (String × V) → Type ℓ
  IsUnique [] = Unit
  IsUnique ((k, v) ∷ m) = (lookup k m ≡ none) × IsUnique m

  missed :
      (k j : String) (w : V) (m : List (String × V))
      → lookup k ((j, w) ∷ m) ≡ none
      → ((j == k) ≡ false) × (lookup k m ≡ none)
  unfolding lookup
  missed k j w m e = elim (Bool-cases (j == k)) [
    | inl same ↦ let wrong : some w ≡ none = ground arith in absurd (cc)
    | inr other ↦ (other, ground arith)
  ]

  pub length-insert :
      (k : String) (v : V) (m : List (String × V))
      → lookup k m ≡ none
      → length (insert k v m) ≡ suc (length m)
  unfolding lookup insert
  length-insert k v [] e = refl
  length-insert k v ((j, w) ∷ m) e =
      let (other, absent) = missed k j w m e in rw other (ap suc (length-insert k v m absent))

  pub insert-IsUnique :
      (k : String) (v : V) (m : List (String × V))
      → lookup k m ≡ none
      → IsUnique m
      → IsUnique (insert k v m)
  unfolding lookup insert
  insert-IsUnique k v [] e u = (refl, tt)
  insert-IsUnique k v ((j, w) ∷ m) e (fresh, u) =
      let (other, absent) = missed k j w m e in
      rw other
        ((lookup-insert k j v m ∙ (rw (flipped k j other) fresh)), insert-IsUnique k v m absent u)

  pub remove-IsUnique : (k : String) (m : List (String × V)) → IsUnique m → IsUnique (remove k m)
  unfolding remove
  remove-IsUnique k [] u = tt
  remove-IsUnique k ((j, w) ∷ m) (fresh, u) = elim (Bool-cases (j == k)) [
    | inl same ↦ rw same (remove-IsUnique k m u)
    | inr other ↦
        rw other ((lookup-remove k j m ∙ (rw (flipped k j other) fresh)), remove-IsUnique k m u)
  ]

  pub remove-none : (k : String) (m : List (String × V)) → lookup k m ≡ none → remove k m ≡ m
  unfolding lookup remove
  remove-none k [] e = refl
  remove-none k ((j, w) ∷ m) e =
      let (other, absent) = missed k j w m e in
      rw other (ap (λ l. (j, w) ∷ l) (remove-none k m absent))

  pub length-remove :
      (k : String) (v : V) (m : List (String × V))
      → IsUnique m
      → lookup k m ≡ some v
      → suc (length (remove k m)) ≡ length m
  unfolding lookup remove
  length-remove k v [] u e = absurd (cc)
  length-remove k v ((j, w) ∷ m) (fresh, u) e = elim (Bool-cases (j == k)) [
    | inl same ↦
        let gone : lookup k m ≡ none = subst (λ i. lookup i m ≡ none) ((eq_iff j k).0 same) fresh in
        rw same (ap (λ l. suc (length l)) (remove-none k m gone))
    | inr other ↦
        let there : lookup k m ≡ some v = ground arith in
        rw other (ap suc (length-remove k v m u there))
  ]

  module _ {κ} (P : V → Type κ) where
    pub insert-All :
        (k : String) (v : V) (m : List (String × V))
        → P v
        → All (λ p. P p.1) m
        → All (λ p. P p.1) (insert k v m)
    unfolding insert
    insert-All k v [] h hs = (h, tt)
    insert-All k v ((j, w) ∷ m) h (g, hs) = elim (Bool-cases (j == k)) [
      | inl same ↦ rw same (h, hs)
      | inr other ↦ rw other (g, insert-All k v m h hs)
    ]

    pub remove-All :
        (k : String) (m : List (String × V)) → All (λ p. P p.1) m → All (λ p. P p.1) (remove k m)
    unfolding remove
    remove-All k [] hs = tt
    remove-All k ((j, w) ∷ m) (g, hs) = elim (Bool-cases (j == k)) [
      | inl same ↦ rw same (remove-All k m hs)
      | inr other ↦ rw other (g, remove-All k m hs)
    ]

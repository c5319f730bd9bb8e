-- ===== src/Inference/Keys.antt =====
-- The order of the sort keys of detections: texts by their characters, then numbers.
use Prim.Native.Nat.{Ordering, compare as compare_ℕ}
use Prim.Native.Char.{code}
use Prim.Native.String.{String, [], ◌∷◌, compare, then as first_of}
use Prim.Native.String.compare
use text.Mathlib.Text.{is_eq}
use text.Mathlib.TextEquality.{path_by_compare}
use boars_head_compliance_de.Prelude.{
  ℕ, ◌≡◌, refl, ap, sym, subst, ◌∙◌, Bool, true, false, ◌&&◌, ◌||◌, arith, ◌==◌, ltb, ◌⊎◌, inl, inr,
}

compare-swap_lt : (m n : ℕ) → compare_ℕ m n ≡ Ordering.lt → compare_ℕ n m ≡ Ordering.gt
compare-swap_lt m n h = ground arith

compare-swap_eq : (m n : ℕ) → compare_ℕ m n ≡ Ordering.eq → compare_ℕ n m ≡ Ordering.eq
compare-swap_eq m n h = ground arith

first_of-eq-lt :
    (o p : Ordering)
    → first_of o p ≡ Ordering.lt
    → (o ≡ Ordering.lt) ⊎ ((o ≡ Ordering.eq) × (p ≡ Ordering.lt))
first_of-eq-lt Ordering.lt p h = inl refl
first_of-eq-lt Ordering.eq p h = inr (refl, h)
first_of-eq-lt Ordering.gt p h = cc

pub compare-swap : (s t : String) → compare s t ≡ Ordering.lt → compare t s ≡ Ordering.gt
compare-swap [] [] h = let h' : Ordering.eq ≡ Ordering.lt = sym compare.nil-nil ∙ h in cc
compare-swap [] (d ∷ t) h = compare.cons-nil d t
compare-swap (c ∷ s) [] h =
    let h' : Ordering.gt ≡ Ordering.lt = sym (compare.cons-nil c s) ∙ h in cc
compare-swap (c ∷ s) (d ∷ t) h =
    compare.cons-cons d c t s ∙ elim (first_of-eq-lt _ _ (sym (compare.cons-cons c d s t) ∙ h)) [
      | inl e ↦ ap (λ o. first_of o (compare t s)) (compare-swap_lt (code c) (code d) e)
      | inr (e, e') ↦
          ap (λ o. first_of o (compare t s)) (compare-swap_eq (code c) (code d) e)
          ∙ compare-swap s t e'
    ]

pub compare-swap_same : (s t : String) → compare s t ≡ Ordering.eq → compare t s ≡ Ordering.eq
compare-swap_same s t h =
    let same : s ≡ t = path_by_compare s t h in
    subst (λ u. compare u s ≡ Ordering.eq) same (ap (λ u. compare s u) same ∙ h)

abbrev pub first_less : Ordering → Bool → Bool
first_less Ordering.lt b = true
first_less Ordering.eq b = b
first_less Ordering.gt b = false

pub first_less-asym :
    (o p : Ordering) (b c : Bool)
    → (o ≡ Ordering.lt → p ≡ Ordering.gt)
    → (o ≡ Ordering.eq → p ≡ Ordering.eq)
    → (b ≡ true → c ≡ false)
    → first_less o b ≡ true
    → first_less p c ≡ false
first_less-asym Ordering.lt p b c f g k h = rw (f refl) refl
first_less-asym Ordering.eq p b c f g k h = rw (g refl) (k h)
first_less-asym Ordering.gt p b c f g k h = cc

abbrev pub later_keys : Bool → ℕ → ℕ → Bool
later_keys b m n = ltb m n || m == n && b

pub later_keys-asym :
    (m n : ℕ) (b c : Bool)
    → (b ≡ true → c ≡ false)
    → later_keys b m n ≡ true
    → later_keys c n m ≡ false
later_keys-asym m n b c k h = ground arith

pub text_keys :
    (o : Ordering) (b : Bool)
    → elim o [ Ordering.lt ↦ true | _ ↦ false ] || is_eq o && b ≡ first_less o b
text_keys Ordering.lt b = refl
text_keys Ordering.eq b = refl
text_keys Ordering.gt b = refl

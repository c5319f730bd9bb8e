-- ===== src/Inference/Ensures.antt =====
-- Properties that a result has if it is not a fault, along the chains of the resolver.
use boars_head_compliance_de.Prelude.{
  String, ◌≡◌, refl, sym, subst, Bool, true, false, not, Option, none, some, [], ◌∷◌, inl, inr,
  Bool-cases,
}
use boars_head_compliance_de.Prelude.Dict.{Dict, string_eq, get, put}
use boars_head_compliance_de.Serialization.{Json, array, Items}
use boars_head_compliance_de.Inference.{Fault, Result, ok, err, ◌>>=◌, ◌>>◌, guard, or_fail}

-- A result that has a property, if it is not a fault.
unfoldable pub Ensures {ℓ} : {A : Type ℓ} → (A → Type 0) → Result A → Type 0
Ensures P (ok a) = P a
Ensures P (err e) = Unit

pub Ensures-ok {ℓ} :
    {A : Type ℓ} (P : A → Type 0) (m : Result A) {a : A} → Ensures P m → m ≡ ok a → P a
unfolding Ensures
Ensures-ok P m h e = subst (Ensures P) e h

pub Ensures-bind {ℓ κ} :
    {A : Type ℓ} {B : Type κ} (P : A → Type 0) (Q : B → Type 0) (m : Result A) (f : A → Result B)
    → Ensures P m
    → ((a : A) → P a → Ensures Q (f a))
    → Ensures Q (m >>= f)
unfolding Ensures ◌>>=◌
Ensures-bind P Q (ok a) f h next = next a h
Ensures-bind P Q (err e) f h next = tt

-- A step whose value needs no property.
pub Ensures-then {ℓ κ} :
    {A : Type ℓ} {B : Type κ} (Q : B → Type 0) (m : Result A) (f : A → Result B)
    → ((a : A) → Ensures Q (f a))
    → Ensures Q (m >>= f)
unfolding Ensures ◌>>=◌
Ensures-then Q (ok a) f next = next a
Ensures-then Q (err e) f next = tt

pub Ensures-guard {ℓ} :
    {B : Type ℓ} (Q : B → Type 0) (b : Bool) (e : Fault) (k : Result B)
    → (b ≡ true → Ensures Q k)
    → Ensures Q (guard b e >> k)
unfolding Ensures ◌>>=◌ ◌>>◌ guard
Ensures-guard Q true e k next = next refl
Ensures-guard Q false e k next = tt

pub Ensures-or_fail {ℓ} :
    {A : Type ℓ} (P : A → Type 0) (o : Option A) (e : Fault)
    → ((a : A) → o ≡ some a → P a)
    → Ensures P (or_fail o e)
unfolding Ensures or_fail
Ensures-or_fail P none e h = tt
Ensures-or_fail P (some a) e h = h a refl

pub Ensures-elim {ℓ κ} :
    {A : Type ℓ} {B : Type κ} (Q : B → Type 0) (o : Option A) (m : Result B) (f : A → Result B)
    → Ensures Q m
    → ((a : A) → o ≡ some a → Ensures Q (f a))
    → Ensures Q (elim o [ none ↦ m | some a ↦ f a ])
Ensures-elim Q none m f h next = h
Ensures-elim Q (some a) m f h next = next a refl

pub Ensures-array {κ} :
    {B : Type κ} (Q : B → Type 0) (j : Json) (e : Fault) (f : Items → Result B)
    → ((items : Items) → Ensures Q (f items))
    → Ensures Q (elim j [ array items ↦ f items | other ↦ err e ])
unfolding Ensures
Ensures-array Q (array items) e f next = next items
Ensures-array Q other e f next = tt

pub absurd_bool {ℓ} : {A : Type ℓ} → true ≡ false → A
absurd_bool h = cc

pub not-eq-true : (b : Bool) → not b ≡ true → b ≡ false
not-eq-true true h = sym h
not-eq-true false h = refl

-- A property of every value of a dictionary.
unfoldable pub AllValues {ℓ} : {A : Type ℓ} → (A → Type 0) → Dict String A → Type 0
AllValues P [] = Unit
AllValues P ((j, a) ∷ d) = P a × AllValues P d

pub put-AllValues {ℓ} :
    {A : Type ℓ} (P : A → Type 0) (key : String) (a : A) (d : Dict String A)
    → P a
    → AllValues P d
    → AllValues P (put key a d)
unfolding put AllValues
put-AllValues P key a [] v h = (v, tt)
put-AllValues P key a ((j, w) ∷ d) v h = elim (Bool-cases (string_eq.beq j key)) [
  | inl e ↦ rw e (v, h.1)
  | inr e ↦ rw e (h.0, put-AllValues P key a d v h.1)
]

pub get-AllValues {ℓ} :
    {A : Type ℓ} (P : A → Type 0) (key : String) (d : Dict String A) (a : A)
    → AllValues P d
    → get key d ≡ some a
    → P a
unfolding get AllValues
get-AllValues P key [] a h e = cc
get-AllValues P key ((j, w) ∷ d) a h e = elim (Bool-cases (string_eq.beq j key)) [
  | inl b ↦ (let same : w ≡ a = cc in subst P same h.0)
  | inr b ↦ get-AllValues P key d a h.1 (rw b at e)
]

-- ===== src/Examples/Wire.antt =====
-- A detection event over the wire, in a codec with readers and writers that are easy to check: a
-- text is a sequence of numbers in unary.
use Prim.Native.Char.{Char}
use text.Mathlib.Text.{◌==◌ as str_eq}
use text.Mathlib.TextBridge.{to_list, of_list, to_list-of_list}
use boars_head_compliance_de.Prelude.{
  ℕ, zero, suc, ◌+◌, ◌≡◌, refl, ap, ap₂, ◌∙◌, Bool, true, false, Option, none, some, List, [], ◌∷◌,
  arith,
}
use boars_head_compliance_de.Float.{Float, Fps}
use boars_head_compliance_de.Detection.{DetectionEvent}
use boars_head_compliance_de.Serialization.{Json, int, float, rate, Codec, IsInverse}
use boars_head_compliance_de.Serialization.Messages.{detection, serialize, deserialize}
use boars_head_compliance_de.Serialization.RoundTrip.{deserialize-serialize}
use boars_head_compliance_de.Examples.{event_at}
use boars_head_compliance_de.Examples.Persons.{seen_as}

abbrev is_one : Char → Bool
is_one c = str_eq (of_list (c ∷ [])) "1"

abbrev pub ones : ℕ → List Char → List Char
ones zero cs = cs
ones (suc n) cs = "1" ∷ ones n cs

abbrev write : List ℕ → List Char
write [] = []
write (n ∷ ns) = ones n ("," ∷ write ns)

abbrev read : ℕ → List Char → List ℕ
read n [] = []
read n (c ∷ cs) = elim (is_one c) [ true ↦ read (suc n) cs | false ↦ n ∷ read 0 cs ]

read-ones : (k n : ℕ) (cs : List Char) → read k (ones n ("," ∷ cs)) ≡ (k + n) ∷ read 0 cs
read-ones k zero cs = ap (λ m. m ∷ read 0 cs) (omega arith)
read-ones k (suc n) cs = read-ones (suc k) n cs ∙ ap (λ m. m ∷ read 0 cs) (omega arith)

read-write : (ns : List ℕ) → read 0 (write ns) ≡ ns
read-write [] = refl
read-write (n ∷ ns) = read-ones 0 n (write ns) ∙ ap₂ (λ m ms. m ∷ ms) (omega arith) (read-write ns)

abbrev first : List ℕ → Option ℕ
first [] = none
first (n ∷ ns) = some n

abbrev int_of : Json → Option ℕ
int_of (int n) = some n
int_of _ = none

abbrev float_of : Json → Option Float
float_of (float x) = some x
float_of _ = none

abbrev rate_of : Json → Option Fps
rate_of (rate x) = some x
rate_of _ = none

abbrev pub unary : Codec
unary = record {
  Wire = Json;
  dumps = λ j. j;
  loads = some;
  isoformat = λ t. of_list (write (t ∷ []));
  fromisoformat = λ s. first (read 0 (to_list s));
  b64encode = λ b. of_list (write b);
  b64decode = λ s. some (read 0 (to_list s));
  to_int = int_of;
  to_float = float_of;
  to_rate = rate_of;
}

texts : (ns : List ℕ) → read 0 (to_list (of_list (write ns))) ≡ ns
texts ns = ap (λ cs. read 0 cs) (to_list-of_list (write ns)) ∙ read-write ns

pub unary-IsInverse : IsInverse unary
unary-IsInverse = record {
  loads-dumps = λ j. refl;
  fromisoformat-isoformat = λ t. ap first (texts (t ∷ []));
  b64decode-b64encode = λ b. ap some (texts b);
  to_int-int = λ n. refl;
  to_float-float = λ x. refl;
  to_rate-rate = λ x. refl;
}

abbrev pub pictured : DetectionEvent
pictured = record (event_at 3) { detections = seen_as (some 6) ∷ []; thumbnail = some (1 ∷ 2 ∷ []) }

deserialize-serialize_example :
    (bytes : unary.Wire) × (serialize unary "inference.detections" (detection pictured)
      ≡ some bytes)
    × (deserialize unary "inference.detections" bytes
        ≡ some (detection (record pictured { detections = seen_as none ∷ [] })))
deserialize-serialize_example = deserialize-serialize unary unary-IsInverse (detection pictured)

-- ===== src/Cache/Repository/Conversion.antt =====
-- `_convert_types` of services/cache/src/infrastructure/redis/repository.py: the texts of a hash as
-- numbers, where they are texts of numbers.
use realtime_analytics_pipel.Prelude.{
  ◌≡◌, refl, Bool, true, false, Option, none, some, List, [], ◌∷◌, String, str_eq, if◌then◌else◌,
}

-- Python's `int` and `float`
pub data Number (Int Float : Type 0) : Type 0 where
  whole : Int → Number Int Float
  real : Float → Number Int Float

-- an item of the result
pub data Converted (Int Float : Type 0) : Type 0 where
  number : Number Int Float → Converted Int Float
  raw : String → Converted Int Float

abbrev pub lookup : {A : Type 0} → String → List (String × A) → Option A
lookup x [] = none
lookup x ((n, a) ∷ rest) = let later = lookup x rest in if str_eq n x then some a else later

-- `parse_int` and `parse_float` are `int` and `float` of a text, with `none` for a `ValueError`
module _ {Int Float : Type 0} (parse_int : String → Option Int)
    (parse_float : String → Option Float) where
  unfoldable pub or_float : String → Option Float → Converted Int Float
  or_float v (some x) = number (real x)
  or_float v none = raw v

  unfoldable pub convert_value : String → Converted Int Float
  convert_value v = elim (parse_int v) [
    | some i ↦ number (whole i)
    | none ↦ or_float v (parse_float v)
  ]

  unfoldable pub convert_types : List (String × String) → List (String × Converted Int Float)
  convert_types [] = []
  convert_types ((k, v) ∷ rest) = (k, convert_value v) ∷ convert_types rest

  -- the texts that the client writes for numbers are texts of these numbers, and that of a float is not
  -- one of an integer
  pub record IsText (show : Number Int Float → String) : Type 0 where
    pub of_whole : (i : Int) → parse_int (show (whole i)) ≡ some i
    pub of_real : (x : Float) → parse_int (show (real x)) ≡ none
    pub of_float : (x : Float) → parse_float (show (real x)) ≡ some x

  pub convert_value-show :
      (show : Number Int Float → String)
      → IsText show
      → (n : Number Int Float) → convert_value (show n) ≡ number n
  unfolding convert_value or_float
  convert_value-show show t (whole i) = rw (convert_value, t.of_whole i) refl
  convert_value-show show t (real x) = rw (convert_value, t.of_real x, t.of_float x) refl

  abbrev pub converted : Option String → Option (Converted Int Float)
  converted none = none
  converted (some v) = some (convert_value v)

  pub lookup-convert_types :
      (x : String) (d : List (String × String))
      → lookup x (convert_types d) ≡ converted (lookup x d)
  unfolding convert_types
  lookup-convert_types x [] = refl
  lookup-convert_types x ((k, v) ∷ rest) = go (str_eq k x) (lookup-convert_types x rest)
    where
      go :
          (b : Bool)
          → lookup x (convert_types rest) ≡ converted (lookup x rest)
          → (if b then some (convert_value v) else lookup x (convert_types rest))
            ≡ converted (if b then some v else lookup x rest)
      go true h = refl
      go false h = h

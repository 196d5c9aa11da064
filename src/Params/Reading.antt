-- ===== src/Params/Reading.antt =====
-- What a node reads for its parameters.
use Prim.Native.String.{String}
use text.Mathlib.TextEquality.{eq_iff}
use digital_twin_based_on_un.Common.{
  ◌≡◌, refl, Bool, true, List, [], ◌∷◌, Option, none, some, is_some, All, arith,
}
use digital_twin_based_on_un.Common.Int.{ℤ}
use digital_twin_based_on_un.Bridges.Joints.{lookup, get_or}
use digital_twin_based_on_un.Params.{
  Declare, Value, bool_value, integer_value, double_value, string_value, double_array_value,
  string_array_value, kind, Declarations, declare_all, as_flag, as_whole, as_real, as_text,
  as_array, as_texts, unset_array,
}

module _ {F : Type 0} where
  -- What rclpy documents: a declared parameter has the type of its default.
  abbrev pub KeepsType : Declare F → Type 0
  KeepsType declare_parameter =
      (name : String) (default v : Value F)
      → declare_parameter name default ≡ some v
      → kind v ≡ kind default

  -- Each declaration gives a value.
  abbrev pub Accepts : Declare F → Declarations F → Type 0
  Accepts declare_parameter ds =
      All (λ (d : String × Value F). is_some (declare_parameter d.0 d.1) ≡ true) ds

  abbrev pub chosen : Declare F → String → Value F → Value F
  chosen declare_parameter name default = get_or (declare_parameter name default) default

  abbrev pub resolved : Declare F → Declarations F → List (String × Value F)
  resolved declare_parameter [] = []
  resolved declare_parameter ((name, default) ∷ ds) =
      (name, chosen declare_parameter name default) ∷ resolved declare_parameter ds

  pub declare_all-Accepts :
      (declare_parameter : Declare F) (ds : Declarations F)
      → Accepts declare_parameter ds
      → declare_all declare_parameter ds ≡ some (resolved declare_parameter ds)
  unfolding declare_all
  declare_all-Accepts declare_parameter [] h = refl
  declare_all-Accepts declare_parameter ((name, default) ∷ ds) h =
      ground (arith, declare_all-Accepts declare_parameter ds, h.0, h.1)

  pub Accepts-declare_all :
      (declare_parameter : Declare F) (ds : Declarations F)
      → is_some (declare_all declare_parameter ds) ≡ true
      → Accepts declare_parameter ds
  unfolding declare_all
  Accepts-declare_all declare_parameter [] h = tt
  Accepts-declare_all declare_parameter ((name, default) ∷ ds) h =
      (ground arith, Accepts-declare_all declare_parameter ds (ground arith))

  -- The value that is chosen, by the type of the default.
  abbrev pub chosen_flag : Declare F → String → Bool → Bool
  chosen_flag declare_parameter name default =
      get_or (as_flag (declare_parameter name (bool_value default))) default

  abbrev pub chosen_whole : Declare F → String → ℤ → ℤ
  chosen_whole declare_parameter name default =
      get_or (as_whole (declare_parameter name (integer_value default))) default

  abbrev pub chosen_real : Declare F → String → F → F
  chosen_real declare_parameter name default =
      get_or (as_real (declare_parameter name (double_value default))) default

  abbrev pub chosen_text : Declare F → String → String → String
  chosen_text declare_parameter name default =
      get_or (as_text (declare_parameter name (string_value default))) default

  abbrev pub chosen_texts : Declare F → String → List String → List String
  chosen_texts declare_parameter name default =
      get_or (as_texts (declare_parameter name (string_array_value default))) default

  abbrev pub of_array : Option (List F) → Value F
  of_array none = unset_array
  of_array (some xs) = double_array_value xs

  abbrev pub chosen_array : Declare F → String → Option (List F) → Option (List F)
  chosen_array declare_parameter name default =
      get_or (as_array (declare_parameter name (of_array default))) default

  -- A declared parameter is there after the declarations.
  lookup-resolved :
      (declare_parameter : Declare F) (ds : Declarations F) (name : String) (default : Value F)
      → Accepts declare_parameter ds
      → lookup name ds ≡ some default
      → (lookup name (resolved declare_parameter ds) ≡ some (chosen declare_parameter name default))
        × (is_some (declare_parameter name default) ≡ true)
  lookup-resolved declare_parameter [] name default h found = cc
  lookup-resolved declare_parameter ((key, d) ∷ ds) name default h found =
      ground (arith, eq_iff key name, h.0, lookup-resolved declare_parameter ds name default h.1)

  module _ (declare_parameter : Declare F) (typed : KeepsType declare_parameter)
      (ds : Declarations F) (h : Accepts declare_parameter ds) (name : String) where
    pub as_flag-resolved :
        (default : Bool)
        → lookup name ds ≡ some (bool_value default)
        → as_flag (lookup name (resolved declare_parameter ds))
          ≡ some (chosen_flag declare_parameter name default)
    as_flag-resolved default found = ground (
      arith,
      lookup-resolved declare_parameter ds name (bool_value default) h found,
      typed name (bool_value default) (chosen declare_parameter name (bool_value default)),
    )

    pub as_whole-resolved :
        (default : ℤ)
        → lookup name ds ≡ some (integer_value default)
        → as_whole (lookup name (resolved declare_parameter ds))
          ≡ some (chosen_whole declare_parameter name default)
    as_whole-resolved default found = ground (
      arith,
      lookup-resolved declare_parameter ds name (integer_value default) h found,
      typed name (integer_value default) (chosen declare_parameter name (integer_value default)),
    )

    pub as_real-resolved :
        (default : F)
        → lookup name ds ≡ some (double_value default)
        → as_real (lookup name (resolved declare_parameter ds))
          ≡ some (chosen_real declare_parameter name default)
    as_real-resolved default found = ground (
      arith,
      lookup-resolved declare_parameter ds name (double_value default) h found,
      typed name (double_value default) (chosen declare_parameter name (double_value default)),
    )

    pub as_text-resolved :
        (default : String)
        → lookup name ds ≡ some (string_value default)
        → as_text (lookup name (resolved declare_parameter ds))
          ≡ some (chosen_text declare_parameter name default)
    as_text-resolved default found = ground (
      arith,
      lookup-resolved declare_parameter ds name (string_value default) h found,
      typed name (string_value default) (chosen declare_parameter name (string_value default)),
    )

    pub as_texts-resolved :
        (default : List String)
        → lookup name ds ≡ some (string_array_value default)
        → as_texts (lookup name (resolved declare_parameter ds))
          ≡ some (chosen_texts declare_parameter name default)
    as_texts-resolved default found = ground (
      arith,
      lookup-resolved declare_parameter ds name (string_array_value default) h found,
      typed name (string_array_value default)
          (chosen declare_parameter name (string_array_value default)),
    )

    pub as_array-resolved :
        (default : Option (List F))
        → lookup name ds ≡ some (of_array default)
        → as_array (lookup name (resolved declare_parameter ds))
          ≡ some (chosen_array declare_parameter name default)
    as_array-resolved default found = ground (
      arith,
      lookup-resolved declare_parameter ds name (of_array default) h found,
      typed name (of_array default) (chosen declare_parameter name (of_array default)),
    )

-- ===== src/Jog/Twist.antt =====
-- What `held_keys_to_twist` makes of the held keys.
use mathlib.Core.Quot
use mathlib.Core.Quot.{Quot}
use digital_twin_based_on_un.Common.{ℕ, ◌≡◌, refl, ◌∙◌, true, List, some, arith, elem}
use digital_twin_based_on_un.Common.Floats.{Floats}
use digital_twin_based_on_un.Msgs.{Vector3}
use digital_twin_based_on_un.Jog.{jog_keys, filter_held_keys, axis, held_keys_to_twist, keep_in}
use digital_twin_based_on_un.Jog.Filter.{elem-keep_in}

-- The two key states agree on every jog key.
abbrev pub SameJogs : List ℕ → List ℕ → Type 0
SameJogs xs ys = (k : ℕ) → elem k jog_keys ≡ true → elem k xs ≡ elem k ys

module _ {F : Type 0} ⦃fl : Floats F⦄ where
  axis-SameJogs :
      (xs ys : List ℕ) (p n : ℕ) (step : F)
      → SameJogs xs ys
      → elem p jog_keys ≡ true
      → elem n jog_keys ≡ true
      → axis xs p n step ≡ axis ys p n step
  unfolding axis
  axis-SameJogs xs ys p n step same hp hn = rw (axis, same p hp, same n hn)

  -- The twist depends on which jog keys are held and on nothing else: not on their order, on
  -- repeats, or on other keys.
  pub held_keys_to_twist-SameJogs :
      (xs ys : List ℕ) (linear_step angular_step : F)
      → SameJogs xs ys
      → held_keys_to_twist (some xs) linear_step angular_step
        ≡ held_keys_to_twist (some ys) linear_step angular_step
  unfolding held_keys_to_twist
  held_keys_to_twist-SameJogs xs ys l a same = rw (
    axis-SameJogs xs ys b'w' b's' l same refl refl,
    axis-SameJogs xs ys b'a' b'd' l same refl refl,
    axis-SameJogs xs ys b'q' b'e' l same refl refl,
    axis-SameJogs xs ys b'i' b'k' a same refl refl,
    axis-SameJogs xs ys b'j' b'l' a same refl refl,
    axis-SameJogs xs ys b'u' b'o' a same refl refl,
  )

  -- Filtering the held keys does not change the twist.
  pub held_keys_to_twist-filter_held_keys :
      (held : List ℕ) (linear_step angular_step : F)
      → held_keys_to_twist (some (filter_held_keys (some held))) linear_step angular_step
        ≡ held_keys_to_twist (some held) linear_step angular_step
  unfolding filter_held_keys
  held_keys_to_twist-filter_held_keys held l a =
      held_keys_to_twist-SameJogs (keep_in jog_keys held) held l a
        λ k hk. elem-keep_in k jog_keys held ∙ ground arith

-- The keyboard as the robot sees it: which jog keys are held, and nothing else.
abbrev pub HeldKeys : Type 0
HeldKeys = Quot SameJogs

abbrev pub held_keys : List ℕ → HeldKeys
held_keys keys = Quot.mk keys

filter_held_keys-SameJogs : (held : List ℕ) → SameJogs (filter_held_keys (some held)) held
unfolding filter_held_keys
filter_held_keys-SameJogs held k hk = elem-keep_in k jog_keys held ∙ ground arith

-- The filtered keys are the same keyboard.
pub held_keys-filter_held_keys :
    (held : List ℕ) → held_keys (filter_held_keys (some held)) ≡ held_keys held
held_keys-filter_held_keys held = Quot.sound (filter_held_keys-SameJogs held)

-- The twist that a keyboard asks for.
unfoldable pub twist_of :
    {F : Type 0} ⦃fl : Floats F⦄ → IsSet F → F → F → HeldKeys → Vector3 F × Vector3 F
twist_of F_set linear_step angular_step =
    Quot.lift (hlevel F_set) (λ keys. held_keys_to_twist (some keys) linear_step angular_step)
      λ xs ys same. held_keys_to_twist-SameJogs xs ys linear_step angular_step same

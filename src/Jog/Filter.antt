-- ===== src/Jog/Filter.antt =====
-- What `filter_held_keys` keeps.
use digital_twin_based_on_un.Common.{ℕ, ◌≡◌, refl, false, ◌&&◌, List, [], ◌∷◌, some, arith, elem}
use digital_twin_based_on_un.Jog.{jog_keys, keep_in, filter_held_keys}

-- No key is listed twice.
abbrev pub IsUnique : List ℕ → Type 0
IsUnique [] = Unit
IsUnique (k ∷ ks) = (elem k ks ≡ false) × IsUnique ks

pub elem-keep_in :
    (k : ℕ) (allowed keys : List ℕ) → elem k (keep_in allowed keys) ≡ elem k keys && elem k allowed
unfolding keep_in
elem-keep_in k allowed [] = refl
elem-keep_in k allowed (x ∷ xs) = ground (arith, elem-keep_in k allowed xs)

keep_in_idem :
    (allowed keys : List ℕ) → keep_in allowed (keep_in allowed keys) ≡ keep_in allowed keys
unfolding keep_in
keep_in_idem allowed [] = refl
keep_in_idem allowed (x ∷ xs) = ground (arith, keep_in_idem allowed xs)

keep_in-IsUnique : (allowed keys : List ℕ) → IsUnique keys → IsUnique (keep_in allowed keys)
unfolding keep_in
keep_in-IsUnique allowed [] u = u
keep_in-IsUnique allowed (x ∷ xs) u =
    ground (arith, elem-keep_in x allowed xs, keep_in-IsUnique allowed xs u.1)

-- A key is held after filtering exactly when it was held and is a jog key; when every key was held
-- at most once this remains so; and filtering again changes nothing.
filter_held_keys_lem :
    (k : ℕ) (held : List ℕ)
    → IsUnique held
    → (elem k (filter_held_keys (some held)) ≡ elem k held && elem k jog_keys)
      × IsUnique (filter_held_keys (some held))
      × (filter_held_keys (some (filter_held_keys (some held))) ≡ filter_held_keys (some held))
unfolding filter_held_keys
filter_held_keys_lem k held u =
    (elem-keep_in k jog_keys held, keep_in-IsUnique jog_keys held u, keep_in_idem jog_keys held)

-- ===== src/Topics/Samples.antt =====
-- Queues without a limit, for the examples: a latched topic brings the last message from before the
-- subscription, and every message from after it arrives.
use digital_twin_based_on_un.Common.{◌≡◌, refl, List, [], ◌∷◌, ◌++◌, Option, none}
use digital_twin_based_on_un.Topics.{
  Durability, transient_local, volatile, Middleware, KeepsLast, final,
}

module _ {M : Type 0} where
  abbrev pub last_one : List M → List M
  last_one [] = []
  last_one (i ∷ []) = i ∷ []
  last_one (i ∷ j ∷ is) = last_one (j ∷ is)

  abbrev pub by_durability : Durability → List M → List M → List M
  by_durability transient_local before after = last_one before ++ after
  by_durability volatile before after = after

  abbrev pub arrives : Middleware M
  arrives qos before after = by_durability qos.durability before after

  final-last_one :
      (before : Option M) (is after : List M)
      → final before (last_one is ++ after) ≡ final before (is ++ after)
  final-last_one before [] after = refl
  final-last_one before (i ∷ []) after = refl
  final-last_one before (i ∷ j ∷ is) after = final-last_one before (j ∷ is) after

  pub arrives-KeepsLast : KeepsLast arrives
  arrives-KeepsLast = record {
    latched = λ before after. final-last_one none before after;
    streaming = λ before after. refl;
  }

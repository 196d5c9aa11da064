-- ===== src/Topics.antt =====
-- The topics between the nodes: the quality of service of a subscription, and what arrives of the
-- messages that were published on its topic before it and after it.
pub mod Samples
use Prim.Native.String.{String}
use text.Mathlib.Text.{◌==◌ as str_eq}
use digital_twin_based_on_un.Common.{
  ℕ, ◌≡◌, refl, List, [], ◌∷◌, ◌++◌, Option, none, some, if◌then◌else◌, arith,
}

pub data Reliability : Type 0 where
  reliable best_effort : Reliability

pub data Durability : Type 0 where
  transient_local volatile : Durability

pub record QosProfile : Type 0 where
  pub depth : ℕ
  pub reliability : Reliability
  pub durability : Durability

-- The two profiles of the UR state bridge; the watchdog writes out the first again.
abbrev pub latched_qos : QosProfile
latched_qos = record { depth = 1; reliability = reliable; durability = transient_local }

abbrev pub streaming_qos : QosProfile
streaming_qos = record { depth = 10; reliability = reliable; durability = volatile }

-- The last element, or the one before the list.
abbrev pub final {ℓ} : {A : Type ℓ} → Option A → List A → Option A
final before [] = before
final before (x ∷ xs) = final (some x) xs

-- What arrives of the messages that were published before the subscription and after it.
abbrev pub Middleware : Type 0 → Type 0
Middleware M = QosProfile → List M → List M → List M

module _ {M : Type 0} where
  -- The messages that were published on a topic.
  abbrev pub on_topic : String → List (String × M) → List M
  on_topic topic [] = []
  on_topic topic ((name, i) ∷ is) =
      if str_eq name topic then i ∷ on_topic topic is else on_topic topic is

  -- A queue that keeps the last messages drops older ones only; with transient local durability the
  -- last message from before the subscription arrives too, and with volatile durability none does.
  pub record KeepsLast (arrives : Middleware M) : Type 0 where
    pub latched :
        (before after : List M)
        → final none (arrives latched_qos before after) ≡ final none (before ++ after)
    pub streaming :
        (before after : List M) → final none (arrives streaming_qos before after) ≡ final none after

  pub on_topic-append :
      (topic : String) (xs ys : List (String × M))
      → on_topic topic (xs ++ ys) ≡ on_topic topic xs ++ on_topic topic ys
  on_topic-append topic [] ys = refl
  on_topic-append topic ((name, i) ∷ xs) ys = ground (arith, on_topic-append topic xs ys)

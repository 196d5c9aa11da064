-- ===== src/Bridges/Arrivals.antt =====
-- The messages that arrive at the robot state bridge, when publishers were there before it: what
-- a latched topic and a streaming topic bring.
use Prim.Native.String.{String}
use digital_twin_based_on_un.Common.{
  ◌≡◌, refl, sym, ap, ◌∙◌, true, false, inl, inr, List, [], ◌∷◌, ◌++◌, Option, none, some, is_some,
  if◌then◌else◌, arith, Bool-cases,
}
use digital_twin_based_on_un.Topics.{
  latched_qos, streaming_qos, final, Middleware, KeepsLast, on_topic, on_topic-append,
}
use digital_twin_based_on_un.Params.StateBridge.{Settings}
use digital_twin_based_on_un.Bridges.Status.{Input}
use digital_twin_based_on_un.Bridges.Latest.{Event, input, status_timer, or_default, last}
use digital_twin_based_on_un.Bridges.Subscriptions.{Subscription, qos_of, subscribed_topic, takes}

or_default-some {ℓ} :
    {A : Type ℓ} (o : Option A) (a b : A) → is_some o ≡ true → or_default o a ≡ or_default o b
or_default-some none a b h = cc
or_default-some (some x) a b h = refl

or_default-none {ℓ} : {A : Type ℓ} (o : Option A) (a : A) → is_some o ≡ false → or_default o a ≡ a
or_default-none none a h = refl
or_default-none (some x) a h = cc

module _ {F : Type 0} where
  -- The messages of the type of a subscription.
  abbrev pub of_type : Subscription → List (Input F) → List (Input F)
  of_type c [] = []
  of_type c (i ∷ is) = if takes c i then i ∷ of_type c is else of_type c is

  -- The messages among the callbacks.
  abbrev pub heard : List (Event F) → List (Input F)
  heard [] = []
  heard (input i ∷ es) = i ∷ heard es
  heard (status_timer now ∷ es) = heard es

  -- What a value read of a message is after a message, if there was one.
  abbrev pub pick {ℓ} : {A : Type ℓ} → (Input F → Option A) → A → Option (Input F) → A
  pick read default none = default
  pick read default (some i) = or_default (read i) default

  -- The last value is read off the last message of the type.
  last-of_type {ℓ} :
      {A : Type ℓ} (c : Subscription) (read : Input F → Option A)
      → ((i : Input F) → takes c i ≡ is_some (read i))
      → (default : A) (before : Option (Input F)) (es : List (Event F))
      → last read (pick read default before) es
        ≡ pick read default (final before (of_type c (heard es)))
  last-of_type c read agrees default before [] = refl
  last-of_type c read agrees default before (status_timer now ∷ es) =
      last-of_type c read agrees default before es
  last-of_type c read agrees default before (input i ∷ es) = elim (Bool-cases (takes c i)) [
    | inl taken ↦
        rw
          (
            taken,
            or_default-some (read i) (pick read default before) default (sym (agrees i) ∙ taken),
          )
          (last-of_type c read agrees default (some i) es)
    | inr other ↦
        rw (other, or_default-none (read i) (pick read default before) (sym (agrees i) ∙ other))
          (last-of_type c read agrees default before es)
  ]

  of_type-append :
      (c : Subscription) (xs ys : List (Input F))
      → of_type c (xs ++ ys) ≡ of_type c xs ++ of_type c ys
  of_type-append c [] ys = refl
  of_type-append c (i ∷ xs) ys = ground (arith, of_type-append c xs ys)

  abbrev pub messages : List (Input F) → List (Event F)
  messages [] = []
  messages (i ∷ is) = input i ∷ messages is

  heard-messages : (is : List (Input F)) → heard (messages is) ≡ is
  heard-messages [] = refl
  heard-messages (i ∷ is) = ap (λ js. i ∷ js) (heard-messages is)

  -- The messages of its type on the topic of a subscription.
  abbrev pub meant_for : Settings F → Subscription → List (String × Input F) → List (Input F)
  meant_for s c ms = of_type c (on_topic (subscribed_topic s c) ms)

  module _ (s : Settings F) (arrives : Middleware (Input F)) (law : KeepsLast arrives)
      (before after : List (String × Input F)) (es : List (Event F))
      (arrived : (c : Subscription)
        → of_type c (heard es)
          ≡ arrives (qos_of c) (meant_for s c before) (meant_for s c after)) where
    pub latched-last {ℓ} :
        {A : Type ℓ} (c : Subscription) (read : Input F → Option A) (default : A)
        → ((i : Input F) → takes c i ≡ is_some (read i))
        → qos_of c ≡ latched_qos
        → last read default es
          ≡ last read default (messages (on_topic (subscribed_topic s c) (before ++ after)))
    latched-last c read default agrees qos =
        let topic = subscribed_topic s c in
        let both = on_topic topic (before ++ after) in
        last-of_type c read agrees default none es
        ∙ ap (λ o. pick read default o)
            (ap (final none) (arrived c)
              ∙ ap (λ q. final none (arrives q (meant_for s c before) (meant_for s c after))) qos
              ∙ law.latched (meant_for s c before) (meant_for s c after)
              ∙ ap (final none) (
                  sym (of_type-append c (on_topic topic before) (on_topic topic after))
                  ∙ ap (of_type c) (sym (on_topic-append topic before after))
                  ∙ ap (of_type c) (sym (heard-messages both))))
        ∙ sym (last-of_type c read agrees default none (messages both))

    pub streaming-last {ℓ} :
        {A : Type ℓ} (c : Subscription) (read : Input F → Option A) (default : A)
        → ((i : Input F) → takes c i ≡ is_some (read i))
        → qos_of c ≡ streaming_qos
        → last read default es
          ≡ last read default (messages (on_topic (subscribed_topic s c) after))
    streaming-last c read default agrees qos =
        let later = on_topic (subscribed_topic s c) after in
        last-of_type c read agrees default none es
        ∙ ap (λ o. pick read default o)
            (ap (final none) (arrived c)
              ∙ ap (λ q. final none (arrives q (meant_for s c before) (meant_for s c after))) qos
              ∙ law.streaming (meant_for s c before) (meant_for s c after)
              ∙ ap (λ is. final none (of_type c is)) (sym (heard-messages later)))
        ∙ sym (last-of_type c read agrees default none (messages later))

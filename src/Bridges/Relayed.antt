-- ===== src/Bridges/Relayed.antt =====
-- What Unity sees through the four bridges with an input and an output topic.
use Prim.Native.String.{String}
use text.Mathlib.TextEquality.{eq_iff}
use digital_twin_based_on_un.Common.{
  ℕ, ◌≡◌, refl, ap, ◌∙◌, Bool, true, inl, inr, List, [], ◌∷◌, map, Option, none, some, is_some,
  Option-cases,
}
use digital_twin_based_on_un.Topics.{Middleware, KeepsLast, final, on_topic, streaming_qos}
use digital_twin_based_on_un.Bridges.Mirrors.{
  IoStates, IoStatesUnity, DigitalPin, AnalogPin, io_states_callback,
}
use digital_twin_based_on_un.Bridges.Relays.{Relay, relay}

module _ {M O : Type 0} (b : Relay M O) where
  abbrev pub messages : List (ℕ × M) → List M
  messages es = map (λ (e : ℕ × M). e.1) es

  -- The last output on the topic is the image of the last message, when each of its images is one.
  final-relay :
      (m : M) (before : Option O) (es : List (ℕ × M)) (first : Option M)
      → final first (messages es) ≡ some m
      → ((now : ℕ) → is_some (b.callback now m) ≡ true)
      → (first ≡ some m → (now : ℕ) × (before ≡ b.callback now m))
      → (now : ℕ) × (final before (on_topic b.output_topic (relay b es)) ≡ b.callback now m)
  unfolding relay
  final-relay m before [] first last shown start = start last
  final-relay m before ((now, msg) ∷ es) first last shown start =
      elim (Option-cases (b.callback now msg)) [
        | inl dropped ↦
            rw (relay, dropped)
              (final-relay m before es (some msg) last shown
                (λ same. absurd (cc (dropped, same, shown now))))
        | inr (o, e) ↦
            rw (relay, e, (eq_iff b.output_topic b.output_topic).1 refl)
              (final-relay m (some o) es (some msg) last shown (λ same. (now, cc (e, same))))
      ]

  module _ (arrives : Middleware M) (law : KeepsLast arrives) (before after : List (String × M))
      (es : List (ℕ × M)) (m : M) where
    -- The same of the messages that arrive on the input topic.
    pub final-arrived :
        b.qos ≡ streaming_qos
        → messages es ≡ arrives b.qos (on_topic b.input_topic before) (on_topic b.input_topic after)
        → final none (on_topic b.input_topic after) ≡ some m
        → ((now : ℕ) → is_some (b.callback now m) ≡ true)
        → (now : ℕ) × (final none (on_topic b.output_topic (relay b es)) ≡ b.callback now m)
    final-arrived qos arrived last shown =
        let was = on_topic b.input_topic before in
        let is = on_topic b.input_topic after in
        final-relay m none es none
          (ap (final none) arrived
            ∙ ap (λ q. final none (arrives q was is)) qos
            ∙ law.streaming was is
            ∙ last)
          shown (λ same. absurd (cc same))

-- Pins with their states, put together again.
abbrev pub digital_pins : List ℕ → List Bool → List DigitalPin
digital_pins (pin ∷ pins) (state ∷ states) =
    record { pin = pin; state = state } ∷ digital_pins pins states
digital_pins _ _ = []

digital_pins_lem :
    (ds : List DigitalPin)
    → digital_pins (map (λ (d : DigitalPin). d.pin) ds) (map (λ (d : DigitalPin). d.state) ds) ≡ ds
digital_pins_lem [] = refl
digital_pins_lem (d ∷ ds) = ap (λ rest. d ∷ rest) (digital_pins_lem ds)

module _ {F : Type 0} where
  abbrev pub analog_pins : List ℕ → List ℕ → List F → List (AnalogPin F)
  analog_pins (pin ∷ pins) (domain ∷ domains) (state ∷ states) =
      record { pin = pin; domain = domain; state = state } ∷ analog_pins pins domains states
  analog_pins _ _ _ = []

  analog_pins_lem :
      (ps : List (AnalogPin F))
      → analog_pins
          (map (λ (p : AnalogPin F). p.pin) ps)
          (map (λ (p : AnalogPin F). p.domain) ps)
          (map (λ (p : AnalogPin F). p.state) ps)
        ≡ ps
  analog_pins_lem [] = refl
  analog_pins_lem (p ∷ ps) = ap (λ rest. p ∷ rest) (analog_pins_lem ps)

  -- The states of the pins that a message for Unity holds, by whether it is some message.
  abbrev pub pins_of : IoStatesUnity F → IoStates F
  pins_of o = record {
    digital_in_states = digital_pins o.digital_in_pins o.digital_in_states;
    digital_out_states = digital_pins o.digital_out_pins o.digital_out_states;
    analog_in_states = analog_pins o.analog_in_pins o.analog_in_domains o.analog_in_values;
    analog_out_states = analog_pins o.analog_out_pins o.analog_out_domains o.analog_out_values;
  }

  pub pins_of_lem : (now : ℕ) (msg : IoStates F) → pins_of (io_states_callback now msg) ≡ msg
  unfolding io_states_callback
  pins_of_lem now msg =
      simp
        (
          digital_pins_lem msg.digital_in_states,
          digital_pins_lem msg.digital_out_states,
          analog_pins_lem msg.analog_in_states,
          analog_pins_lem msg.analog_out_states,
        )
        refl

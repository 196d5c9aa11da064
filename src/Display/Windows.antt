-- ===== src/Display/Windows.antt =====
-- How long the state machine keeps a command visible.
use digital_twin_based_on_un.Common.{◌≡◌, ◌≢◌, refl, ◌||◌, List, [], ◌∷◌, arith, if◌then◌else◌}
use digital_twin_based_on_un.Common.Floats.{Floats}
use digital_twin_based_on_un.Display.{
  DisplayAction, none, publish, stop, idle, DisplayTwistState, is_idle, has_expired,
  observe_nonzero, tick, reset,
}

-- Nothing is asked of the publisher.
abbrev pub IsQuiet : List DisplayAction → Type 0
IsQuiet [] = Unit {0}
IsQuiet (a ∷ acts) = (a ≡ none) × IsQuiet acts

-- Some publishing, then at most one stop, then nothing.
abbrev pub StopsOnce : List DisplayAction → Type 0
StopsOnce [] = Unit {0}
StopsOnce (publish ∷ rest) = StopsOnce rest
StopsOnce (stop ∷ rest) = IsQuiet rest
StopsOnce (none ∷ rest) = IsQuiet rest

StopsOnce-cons :
    (a : DisplayAction) (rest : List DisplayAction)
    → StopsOnce rest
    → (a ≢ publish → IsQuiet rest)
    → StopsOnce (a ∷ rest)
StopsOnce-cons none rest h q = q (λ e. cc)
StopsOnce-cons publish rest h q = h
StopsOnce-cons stop rest h q = q (λ e. cc)

module _ {F : Type 0} ⦃fl : Floats F⦄ where
  -- The actions of a sequence of ticks, and the state after them.
  unfoldable pub ticks : DisplayTwistState F → List F → DisplayTwistState F × List DisplayAction
  ticks s [] = (s, [])
  ticks s (t ∷ ts) = let (s', a) = tick s t in let (s'', rest) = ticks s' ts in (s'', a ∷ rest)

  -- After a nonzero sample a tick publishes until the window has passed and then stops; the window
  -- is the initial hold for a sample that began a new display, and the active timeout for one that
  -- repeats.
  tick-observe_nonzero :
      (s : DisplayTwistState F) (t1 t : F)
      → let window =
          if is_idle s.phase || has_expired s t1 then s.initial_hold_s else s.active_timeout_s in
        (tick (observe_nonzero s t1) t).1 ≡ (if fl.lt window (fl.sub t t1) then stop else publish)
  unfolding tick observe_nonzero
  tick-observe_nonzero s t1 t = ground arith

  tick_idle : (s : DisplayTwistState F) (t : F) → s.phase ≡ idle → tick s t ≡ (s, none)
  unfolding tick
  tick_idle s t h = ground arith

  tick_stop : (s : DisplayTwistState F) (t : F) → (tick s t).1 ≢ publish → (tick s t).0.phase ≡ idle
  unfolding tick reset
  tick_stop s t h = ground arith

  ticks-idle-IsQuiet :
      (s : DisplayTwistState F) (ts : List F) → s.phase ≡ idle → IsQuiet (ticks s ts).1
  unfolding ticks
  ticks-idle-IsQuiet s [] h = tt
  ticks-idle-IsQuiet s (t ∷ ts) h = rw (tick_idle s t h) (refl, ticks-idle-IsQuiet s ts h)

  -- With no input, however the clock moves, the ticks publish for a while, stop at most once, and
  -- after a stop do nothing more.
  ticks-StopsOnce : (s : DisplayTwistState F) (ts : List F) → StopsOnce (ticks s ts).1
  unfolding ticks
  ticks-StopsOnce s [] = tt
  ticks-StopsOnce s (t ∷ ts) =
      StopsOnce-cons (tick s t).1 (ticks (tick s t).0 ts).1 (ticks-StopsOnce (tick s t).0 ts)
        λ h. ticks-idle-IsQuiet (tick s t).0 ts (tick_stop s t h)

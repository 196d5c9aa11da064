-- ===== src/Servo/Rate.antt =====
-- How often the servo loop publishes.
use digital_twin_based_on_un.Common.{
  ℕ, zero, suc, ◌+◌, ◌*◌, ◌≤◌, ◌≡◌, refl, ap, ◌∙◌, leb, [], All, if◌then◌else◌, if_lem, arith,
}
use digital_twin_based_on_un.Common.Floats.{Floats}
use digital_twin_based_on_un.Servo.{Config, Env, World, pass, emit}
use digital_twin_based_on_un.Servo.Commands.{spin, publish_command, publish_tick}
use digital_twin_based_on_un.Servo.Loop.{
  run_next, process_pending_actions, loop_round, spin_unity_keyboard,
}
use digital_twin_based_on_un.Servo.Numbering.{deliver-sequence_id}
use digital_twin_based_on_un.Servo.Queue.{IsQuiet, deliver-pending_actions}

module _ {F : Type 0} ⦃fl : Floats F⦄ (env : Env F) (cfg : Config F)
    (quiet : (k : ℕ) → All IsQuiet (env k).delivered) where
  process_pending_actions-idle :
      (fuel : ℕ) (w : World F)
      → w.node.pending_actions ≡ []
      → process_pending_actions fuel env cfg w ≡ w
  unfolding process_pending_actions run_next
  process_pending_actions-idle zero w idle = refl
  process_pending_actions-idle (suc fuel) w idle =
      ap (λ q. process_pending_actions fuel env cfg (run_next env cfg q w)) idle
      ∙ process_pending_actions-idle fuel w idle

  publish_tick-sequence_id :
      (w : World F)
      → ((publish_tick env cfg w).node.sequence_id ≡ suc w.node.sequence_id)
        × ((publish_tick env cfg w).node.pending_actions ≡ w.node.pending_actions)
        × ((publish_tick env cfg w).moment ≡ suc w.moment)
  unfolding publish_tick publish_command pass emit
  publish_tick-sequence_id w = (refl, refl, refl)

  spin-idle :
      (w : World F)
      → ((spin env w).node.sequence_id ≡ w.node.sequence_id)
        × ((spin env w).node.pending_actions ≡ w.node.pending_actions)
        × ((spin env w).moment ≡ suc w.moment)
  unfolding spin pass
  spin-idle w = (
    deliver-sequence_id (env w.moment).delivered w.node,
    deliver-pending_actions (env w.moment).delivered w.node (quiet w.moment),
    refl,
  )

  module _ (gap : ℕ) (forward : (k : ℕ) → (env k).now ≤ (env (suc k)).now)
      (dense : (k : ℕ) → (env (suc k)).now ≤ (env k).now + gap) where
    -- The time of the next publication is near the clock, and no action is queued.
    record IsPaced (s : World F × ℕ) : Type 0 where
      idle : s.0.node.pending_actions ≡ []
      soon : s.1 ≤ (env s.0.moment).now + cfg.period
      recent : (env s.0.moment).now ≤ s.1 + 2 * gap

    -- How far the time of the next publication moves, for the commands published from s to r.
    record Advances (s r : World F × ℕ) : Type 0 where
      at_most : r.0.node.sequence_id * cfg.period + s.1 ≤ s.0.node.sequence_id * cfg.period + r.1
      at_least :
          r.1 + s.0.node.sequence_id * (cfg.period + 3 * gap)
          ≤ s.1 + r.0.node.sequence_id * (cfg.period + 3 * gap)

    -- The end of a round, after the spin and the actions.
    tick_if-IsPaced :
        (v : World F) (next_publish : ℕ)
        → v.node.pending_actions ≡ []
        → next_publish ≤ (env v.moment).now + cfg.period
        → (env v.moment).now ≤ next_publish + 3 * gap
        → let r : World F × ℕ =
            if leb next_publish (env v.moment).now
            then (publish_tick env cfg (pass v), (env v.moment).now + cfg.period)
            else (pass v, next_publish) in
          IsPaced r × Advances (v, next_publish) r
    unfolding pass
    tick_if-IsPaced v next_publish idle soon recent =
        let now : ℕ = (env v.moment).now in
        let (next, still, later) = publish_tick-sequence_id (pass v) in
        let e1 = forward v.moment in
        let e2 = forward (suc v.moment) in
        let e3 = dense v.moment in
        let e4 = dense (suc v.moment) in
        if_lem (λ r. IsPaced r × Advances (v, next_publish) r) (leb next_publish now)
          (publish_tick env cfg (pass v), now + cfg.period) (pass v, next_publish)
          (λ due. (
            record {
              idle = still ∙ idle;
              soon = rw later (omega (arith, e1, e2));
              recent = rw later (omega (arith, e3, e4));
            },
            record {
              at_most = rw next (ground (arith, due));
              at_least = rw next (omega (arith, recent));
            },
          ))
          (λ early. (
            record {
              idle = idle;
              soon = omega (arith, e1, soon);
              recent = ground (arith, early, e3);
            },
            record { at_most = omega arith; at_least = omega arith },
          ))

    loop_round-IsPaced :
        (fuel : ℕ) (w : World F) (next_publish : ℕ)
        → IsPaced (w, next_publish)
        → IsPaced (loop_round fuel env cfg (w, next_publish))
          × Advances (w, next_publish) (loop_round fuel env cfg (w, next_publish))
    unfolding loop_round
    loop_round-IsPaced fuel w next_publish p =
        let (same, still, later) = spin-idle w in
        let v : World F = spin env w in
        let e : (env v.moment).now ≡ (env (suc w.moment)).now = ap (λ (k : ℕ). (env k).now) later in
        let (q, a) =
          tick_if-IsPaced v next_publish (still ∙ p.idle)
            (omega (arith, e, p.soon, forward w.moment))
            (omega (arith, e, p.recent, dense w.moment)) in
        rw (process_pending_actions-idle fuel v (still ∙ p.idle)) (
          q,
          record {
            at_most = ground (arith, a.at_most, same);
            at_least = ground (arith, a.at_least, same);
          },
        )

    spin_unity_keyboard-IsPaced :
        (n fuel : ℕ) (s : World F × ℕ)
        → IsPaced s
        → IsPaced (spin_unity_keyboard n fuel env cfg s)
          × Advances s (spin_unity_keyboard n fuel env cfg s)
    unfolding spin_unity_keyboard
    spin_unity_keyboard-IsPaced zero fuel s p =
        (p, record { at_most = omega arith; at_least = omega arith })
    spin_unity_keyboard-IsPaced (suc n) fuel (w, next_publish) p =
        let (q, a) = loop_round-IsPaced fuel w next_publish p in
        let (r, b) =
          spin_unity_keyboard-IsPaced n fuel (loop_round fuel env cfg (w, next_publish)) q in
        (
          r,
          record {
            at_most = omega (arith, a.at_most, b.at_most);
            at_least = omega (arith, a.at_least, b.at_least);
          },
        )

    -- When no callback brings an action and none is queued, and the clock never goes back and by
    -- at most a gap forward between one step of the loop and the next, and at the start the first
    -- publication is due at most a period after the clock, and not more than two gaps before it:
    -- over any number of rounds the commands published, each counted as a period, take no more
    -- than the time from the first publication due to the clock at the end and one period; and
    -- each counted as a period and three gaps, they and two gaps cover that time.
    pub spin_unity_keyboard-rate :
        (n fuel : ℕ) (s : World F × ℕ)
        → s.0.node.pending_actions ≡ []
        → s.1 ≤ (env s.0.moment).now + cfg.period
        → (env s.0.moment).now ≤ s.1 + 2 * gap
        → let r = spin_unity_keyboard n fuel env cfg s in
          let last = (env r.0.moment).now in
          (r.0.node.sequence_id * cfg.period + s.1
            ≤ s.0.node.sequence_id * cfg.period + last + cfg.period)
          × (last + s.0.node.sequence_id * (cfg.period + 3 * gap)
              ≤ s.1 + 2 * gap + r.0.node.sequence_id * (cfg.period + 3 * gap))
    spin_unity_keyboard-rate n fuel s idle soon recent =
        let (p, a) =
          spin_unity_keyboard-IsPaced n fuel s
            (record { idle = idle; soon = soon; recent = recent }) in
        (omega (arith, p.soon, a.at_most), omega (arith, p.recent, a.at_least))

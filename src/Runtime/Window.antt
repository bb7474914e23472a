-- ===== src/Runtime/Window.antt =====
-- The grace window of a stop.
use meeting_bot_service.Prelude.{
  ℕ, zero, suc, ◌+◌, ◌≤◌, ◌<◌, true, false, not, ◌&&◌, some, ◌≡◌, refl, ◌⊎◌, inl, inr, is_some, ltb,
  Bool-cases, arith,
}
use meeting_bot_service.Runtime.Models.{Substrate}
use meeting_bot_service.Runtime.Kernel.{Config, Runtime}
use meeting_bot_service.Runtime.Teardown.{await_exit, force_kill, shutdown}

-- n sleeps on end
unfoldable pub sleeps : (B : Substrate) → ℕ → B.World → B.World
sleeps B zero w = w
sleeps B (suc n) w = sleeps B n (B.sleep w)

module _ (B : Substrate) (cfg : Config) (ticks : (w : B.World) → B.now w < B.now (B.sleep w)) where
  await_exit_ends :
      (fuel : ℕ) (w : B.World) (h : B.Handle) (deadline : ℕ)
      → deadline < B.now w + fuel
      → (n : ℕ) × (await_exit B cfg fuel w h deadline ≡ sleeps B n w)
        × ((is_some (B.exit_code (await_exit B cfg fuel w h deadline) h) ≡ true)
            ⊎ (deadline ≤ B.now (await_exit B cfg fuel w h deadline)))
  unfolding await_exit sleeps
  await_exit_ends zero w h deadline room = (0, refl, inr (omega arith))
  await_exit_ends (suc fuel) w h deadline room =
      elim (Bool-cases (not (is_some (B.exit_code w h)) && ltb (B.now w) deadline)) [
        | inl waits ↦
            let (n, slept, over) =
              await_exit_ends fuel (B.sleep w) h deadline (omega (arith, ticks w)) in
            (suc n, rw waits slept, rw waits over)
        | inr done ↦ (0, rw done, rw done (ground arith))
      ]

  -- A clock that a sleep moves makes the grace window end: after some number of sleeps the workload
  -- has exited or the whole window has passed since the graceful signal. The kill falls in the second
  -- case alone, and the code told is that of the world left behind.
  pub shutdown_window :
      (k : Runtime B) (h : B.Handle)
      → let asked = B.terminate k.world h in
        (n : ℕ) × ((is_some (B.exit_code (sleeps B n asked) h) ≡ true)
            × ((shutdown B cfg k (some h)).0.world ≡ sleeps B n asked)
          ⊎ (is_some (B.exit_code (sleeps B n asked) h) ≡ false)
            × (B.now asked + cfg.grace_ms ≤ B.now (sleeps B n asked))
            × ((shutdown B cfg k (some h)).0.world ≡ B.kill (sleeps B n asked) h))
        × ((shutdown B cfg k (some h)).1 ≡ B.exit_code (shutdown B cfg k (some h)).0.world h)
  unfolding shutdown force_kill
  shutdown_window k h =
      let asked = B.terminate k.world h in
      let deadline = B.now asked + cfg.grace_ms in
      let waited = await_exit B cfg (suc cfg.grace_ms) asked h deadline in
      let (n, slept, over) = await_exit_ends (suc cfg.grace_ms) asked h deadline (omega arith) in
      (n, rw (← slept) (ground arith), refl)

-- ===== src/Audio/Lifecycle.antt =====
-- Proofs about the player and its engine over sequences of calls.
use seraphbot.Base.{◌≡◌, refl, List, [], ◌∷◌, arith, ℤ}
use seraphbot.Audio.Player.{
  Sound, MiniaudioPlayer, new_player, after_init, initialize, shutdown, set_master_volume,
}

-- The engine is set exactly while the player is initialised.
abbrev pub IsReady : {F : Type 0} → MiniaudioPlayer F → Type 0
IsReady p = p.engine ≡ p.initialized

module _ (sound : Sound) where
  -- What can be called on the player that changes it.
  pub data Call : Type 0 where
    init_call shutdown_call : Call
    volume_call : ℤ → Call

  unfoldable pub run_call :
      Call → MiniaudioPlayer sound.Float × sound.World → MiniaudioPlayer sound.Float × sound.World
  run_call init_call (p, w) = let (o, p', w') = initialize sound p w in (p', w')
  run_call shutdown_call (p, w) = shutdown sound p w
  run_call (volume_call volume) (p, w) = set_master_volume sound volume p w

  unfoldable pub run_calls :
      List Call
      → MiniaudioPlayer sound.Float × sound.World
      → MiniaudioPlayer sound.Float × sound.World
  run_calls [] s = s
  run_calls (c ∷ cs) s = run_calls cs (run_call c s)

  run_call-IsReady :
      (c : Call) (p : MiniaudioPlayer sound.Float) (w : sound.World)
      → IsReady p
      → IsReady (run_call c (p, w)).0
  unfolding run_call initialize shutdown set_master_volume after_init
  run_call-IsReady init_call p w h = ground arith
  run_call-IsReady shutdown_call p w h = ground arith
  run_call-IsReady (volume_call volume) p w h = ground arith

  run_calls-IsReady :
      (cs : List Call) (s : MiniaudioPlayer sound.Float × sound.World)
      → IsReady s.0
      → IsReady (run_calls cs s).0
  unfolding run_calls
  run_calls-IsReady [] s h = h
  run_calls-IsReady (c ∷ cs) s h =
      run_calls-IsReady cs (run_call c s) (run_call-IsReady c s.0 s.1 h)

  -- Whatever calls are made on a new player, and whether or not the engine can be made, the player
  -- holds an engine exactly while it says that it is initialised.
  pub new_player-IsReady :
      (cs : List Call) (w : sound.World) → IsReady (run_calls cs (new_player sound, w)).0
  unfolding new_player
  new_player-IsReady cs w = run_calls-IsReady cs (new_player sound, w) refl

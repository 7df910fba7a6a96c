-- ===== src/Scripts/Hosting.antt =====
-- src/core/lua_command_engine.cpp with src/commands: the handler of the engine, with the scripts as
-- the functions that it calls.
use seraphbot.Base.{
  ◌≡◌, refl, ap, ◌∙◌, inl, inr, Bool, true, false, Option, some, List, [], ◌∷◌, ◌++◌, if◌then◌else◌,
  Text, codes,
}
use seraphbot.Base.Dict
use seraphbot.Audio.{AudioSystem}
use seraphbot.Audio.Player.{Sound}
use seraphbot.CommandParser.{CommandContext}
use seraphbot.FileSystem.{FileSystem}
use seraphbot.LuaContext.{get_user, get_args}
use seraphbot.LuaEngine.{LuaCommand, LuaEngine, handle, execute_lua_command}
use seraphbot.LuaHost.{Host, CallEnd, valid_call, invalid_call}
use seraphbot.Metadata.{CommandMetadata}
use seraphbot.Scripts.{Lua, Session, Ran, dice, flip, hello, special, modcmd, vipjoke}
use seraphbot.Scripts.Replies.{
  vipjoke-Answers, modcmd-Answers, special-Answers, hello-Answers, flip-Answers, EndsWithReply,
  dice-Answers,
}
use seraphbot.Scripts.Sfx.{sfx}
use seraphbot.Scripts.Sounds.{sfx_answers}
use seraphbot.LuaEngine.Replying.{
  execute_lua_command_valid, execute_lua_command_invalid, handle_ends,
}

-- The functions `execute` of the scripts.
pub data Execute : Type 0 where
  sfx_script dice_script flip_script hello_script special_script modcmd_script vipjoke_script :
      Execute

module _ (lua : Lua) (fs : FileSystem) (sound : Sound) (audio : AudioSystem sound.Float)
    (base : Host) (script_at : base.Table → Text → Option Execute) where
  -- The rest of the interpreter and of the outside, what scripts change, and the sounds.
  abbrev pub World : Type 0
  World = base.World × Session lua.Seed × sound.World

  abbrev pub replies : World → List Text
  replies (o, x, w) = x.replies

  -- A script that leaves the sounds alone.
  keep_sound : sound.World → Ran (Session lua.Seed) → Ran (Session lua.Seed × sound.World)
  keep_sound w r = record { state = (r.state, w); raised = r.raised }

  unfoldable pub run_script :
      Execute
      → Text
      → List Text
      → Session lua.Seed
      → sound.World
      → Ran (Session lua.Seed × sound.World)
  unfolding keep_sound
  run_script sfx_script user args x w = sfx lua fs sound audio args x w
  run_script dice_script user args x w = keep_sound w (dice lua user args x)
  run_script flip_script user args x w = keep_sound w (flip lua x)
  run_script hello_script user args x w = keep_sound w (hello lua user args x)
  run_script special_script user args x w = keep_sound w (special lua user x)
  run_script modcmd_script user args x w = keep_sound w (modcmd lua user x)
  run_script vipjoke_script user args x w = keep_sound w (vipjoke lua x)

  -- An error makes the result of a protected function invalid.
  unfoldable pub call_end : base.World → Ran (Session lua.Seed × sound.World) → CallEnd × World
  call_end o r = (if r.raised then invalid_call else valid_call, (o, r.state.0, r.state.1))

  unfoldable pub call_script : Execute → CommandContext → World → CallEnd × World
  call_script f ctx (o, x, w) = call_end o (run_script f (get_user ctx) (get_args ctx) x w)

  abbrev pub scripted : Host
  scripted = record {
    World = World;
    Table = base.Table;
    Function = Execute;
    exists = λ path w. base.exists path w.0;
    is_directory = λ path w. base.is_directory path w.0;
    entries = λ path w. base.entries path w.0;
    script_file = λ path w. let (s, o) = base.script_file path w.0 in (s, (o, w.1, w.2));
    call = call_script;
    has = base.has;
    string_at = base.string_at;
    int_at = base.int_at;
    bool_at = base.bool_at;
    table_at = base.table_at;
    function_at = script_at;
    size = base.size;
    has_item = base.has_item;
    string_item = base.string_item;
    now = λ w. base.now w.0;
    reply = λ text w. (w.0, record w.1 { replies = w.1.replies ++ (text ∷ []) }, w.2);
  }

  run_script-EndsWithReply :
      (f : Execute) (user : Text) (args : List Text) (x : Session lua.Seed) (w : sound.World)
      → EndsWithReply
          (run_script f user args x w).raised
          x.replies
          (run_script f user args x w).state.0.replies
  unfolding run_script keep_sound
  run_script-EndsWithReply sfx_script user args x w = sfx_answers lua fs sound audio args x w
  run_script-EndsWithReply dice_script user args x w = dice-Answers lua user args x
  run_script-EndsWithReply flip_script user args x w = flip-Answers lua x
  run_script-EndsWithReply hello_script user args x w = hello-Answers lua user args x
  run_script-EndsWithReply special_script user args x w = special-Answers lua user x
  run_script-EndsWithReply modcmd_script user args x w = modcmd-Answers lua user x
  run_script-EndsWithReply vipjoke_script user args x w = vipjoke-Answers lua x

  -- One reply, behind those before.
  abbrev pub RepliesOnce : World → World → Type 0
  RepliesOnce w w' = (text : Text) × (replies w' ≡ replies w ++ (text ∷ []))

  ended :
      (raised : Bool) (ctx : CommandContext) (f : Execute) (w : World)
      → (run_script f (get_user ctx) (get_args ctx) w.1 w.2).raised ≡ raised
      → EndsWithReply raised w.1.replies
          (run_script f (get_user ctx) (get_args ctx) w.1 w.2).state.0.replies
      → RepliesOnce w (execute_lua_command scripted f ctx w)
  unfolding call_script call_end
  ended true ctx f w e h = (
    codes "Command error occured - check logs",
    ap replies (execute_lua_command_invalid scripted f ctx w (rw e refl))
        ∙ ap (λ (l : List Text). l ++ (codes "Command error occured - check logs" ∷ [])) h,
  )
  ended false ctx f w e h =
      (h.0, ap replies (execute_lua_command_valid scripted f ctx w (rw e refl)) ∙ h.1)

  -- A command that is not switched off gets one reply, behind all replies before, also where it is
  -- refused and where its script ends with an error.
  pub handle_replies :
      (c : LuaCommand Execute) (ctx : CommandContext) (e : LuaEngine) (w : World)
      → ((meta : CommandMetadata)
          → Dict.lookup c.command_name e.command_metadata ≡ some meta
          → meta.enabled ≡ true)
      → RepliesOnce w (handle scripted c ctx e w).1
  handle_replies c ctx e w on = elim (handle_ends scripted c ctx e w on) [
    | inl (text, same) ↦ (text, ap replies same)
    | inr same ↦
        (let (text, once) =
            ended (run_script c.execute_func (get_user ctx) (get_args ctx) w.1 w.2).raised ctx
              c.execute_func w refl
              (run_script-EndsWithReply c.execute_func (get_user ctx) (get_args ctx) w.1 w.2) in
          (text, ap replies same ∙ once))
  ]

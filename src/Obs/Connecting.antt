-- ===== src/Obs/Connecting.antt =====
-- Proofs about a connection to OBS: that nothing gets out of it, and when the pointer to the
-- WebSocket is null.
use seraphbot.Base.{
  String, ◌≡◌, refl, Bool, true, false, ◌&&◌, Option, none, some, arith, if◌then◌else◌, Text,
}
use seraphbot.Net.{Outcome, value, failed, Failure, JsonLibrary}
use seraphbot.Obs.{
  shake_hands, connect_to_obs, dial, open_ws, set_members, next_id, on_ws, member, take_id,
  has_member, authenticate, outside, send_message, receive_message, ObsNet, ObsService,
}
use seraphbot.Obs.Steps.{Step, after, handled, ◌>>=◌, ◌>>◌, pure, catch, or_throw}

-- A step that has ended, not with undefined behaviour, in a state with `P`.
abbrev pub Ends : {S A : Type 0} → (S → Type 0) → Option (Outcome A × S) → Type 0
Ends P none = ⊥
Ends P (some (o, s)) = P s

-- The same for a property of the result too.
abbrev pub Gives : {S A : Type 0} → (Outcome A → S → Type 0) → Option (Outcome A × S) → Type 0
Gives Q none = ⊥
Gives Q (some (o, s)) = Q o s

-- A step that keeps `P` and never dereferences a null pointer where it holds.
pub record Safe {S A : Type 0} (P : S → Type 0) (m : Step S A) : Type 0 where
  pub ends : (s : S) → P s → Ends P (m s)

module _ {S : Type 0} {P : S → Type 0} where
  pub after-Ends :
      {A B : Type 0} (f : A → Step S B) (r : Option (Outcome A × S))
      → ((a : A) → Safe P (f a))
      → Ends P r
      → Ends P (after f r)
  after-Ends f none hf h = elim h [ ]
  after-Ends f (some (value a, s)) hf h = (hf a).ends s h
  after-Ends f (some (failed e, s)) hf h = h

  pub bind-Safe :
      {A B : Type 0} {m : Step S A} {f : A → Step S B}
      → Safe P m
      → ((a : A) → Safe P (f a))
      → Safe P (m >>= f)
  bind-Safe {A} {B} {m} {f} hm hf = record { ends = λ s h. after-Ends f (m s) hf (hm.ends s h) }

  handled-Ends :
      {A : Type 0} (f : Failure → Step S A) (r : Option (Outcome A × S))
      → ((e : Failure) → Safe P (f e))
      → Ends P r
      → Ends P (handled f r)
  handled-Ends f none hf h = elim h [ ]
  handled-Ends f (some (value a, s)) hf h = h
  handled-Ends f (some (failed e, s)) hf h = (hf e).ends s h

  pub catch-Safe :
      {A : Type 0} {m : Step S A} {f : Failure → Step S A}
      → Safe P m
      → ((e : Failure) → Safe P (f e))
      → Safe P (catch m f)
  catch-Safe {A} {m} {f} hm hf = record { ends = λ s h. handled-Ends f (m s) hf (hm.ends s h) }

  pub if-Safe :
      {A : Type 0} (b : Bool) {m k : Step S A} → Safe P m → Safe P k → Safe P (if b then m else k)
  if-Safe true hm hk = hm
  if-Safe false hm hk = hk

  pub or_throw-Safe : {A : Type 0} (o : Option A) (e : Failure) → Safe P (or_throw o e)
  or_throw-Safe none e = record { ends = λ s h. h }
  or_throw-Safe (some a) e = record { ends = λ s h. h }

  pub pure-Safe : {A : Type 0} (a : A) → Safe P (pure a)
  pure-Safe a = record { ends = λ s h. h }

  -- The last step of a sequence, where a failure up to it leaves `Q` as well.
  after-Gives :
      {A B : Type 0} (Q : Outcome B → S → Type 0) (f : A → Step S B) (r : Option (Outcome A × S))
      → ((a : A) (s : S) → P s → Gives Q (f a s))
      → ((e : Failure) (s : S) → P s → Q (failed e) s)
      → Ends P r
      → Gives Q (after f r)
  after-Gives Q f none hf he h = elim h [ ]
  after-Gives Q f (some (value a, s)) hf he h = hf a s h
  after-Gives Q f (some (failed e, s)) hf he h = he e s h

pub ruleset safe_rules = (bind-Safe, catch-Safe, if-Safe, or_throw-Safe, pure-Safe)

module _ (net : ObsNet) (json : JsonLibrary) where
  -- `m_ws` is not null.
  abbrev pub HasWs : ObsService × net.World → Type 0
  HasWs s = s.0.has_ws ≡ true

  on_ws-Safe : {A : Type 0} (m : net.World → Outcome A × net.World) → Safe HasWs (on_ws net json m)
  on_ws-Safe m = record { ends = λ s h. ground arith }

  pub outside-Safe :
      {A : Type 0} (m : net.World → Outcome A × net.World) → Safe HasWs (outside net json m)
  outside-Safe m = record { ends = λ s h. h }

  pub send_message-Safe : (message : json.Json) → Safe HasWs (send_message net json message)
  unfolding send_message
  send_message-Safe message = search (safe_rules, on_ws-Safe)

  pub receive_message-Safe : Safe HasWs (receive_message net json)
  unfolding receive_message
  receive_message-Safe = search (safe_rules, on_ws-Safe)

  pub take_id-Safe : Safe HasWs (take_id net json)
  unfolding take_id next_id
  take_id-Safe = record { ends = λ s h. h }

  pub member-Safe : (j : json.Json) (key : String) → Safe HasWs (member net json j key)
  unfolding member
  member-Safe j key = search safe_rules

  pub has_member-Safe : (j : json.Json) (key : String) → Safe HasWs (has_member net json j key)
  unfolding has_member
  has_member-Safe j key = search safe_rules

  authenticate-Safe : Safe HasWs (authenticate net json)
  unfolding authenticate
  authenticate-Safe =
      search (safe_rules, send_message-Safe, receive_message-Safe, take_id-Safe, has_member-Safe)
        depth 40

  pub set_members-Safe :
      (f : ObsService → ObsService)
      → ((o : ObsService) → o.has_ws ≡ true → (f o).has_ws ≡ true)
      → Safe HasWs (set_members net json f)
  set_members-Safe f h = record { ends = λ s e. h s.0 e }

  pub shake_hands-Safe : (host password : Text) → Safe HasWs (shake_hands net json host password)
  unfolding shake_hands
  shake_hands-Safe host password = search (safe_rules, outside-Safe, authenticate-Safe) depth 20

  -- A failure behind the resolution leaves `m_ws` set, and a success the flag too.
  abbrev pub Dialled : Outcome Bool → ObsService × net.World → Type 0
  Dialled (value b) s = (b ≡ true) × (s.0.connected ≡ true) × HasWs s
  Dialled (failed e) s = HasWs s

  pub dial-Dialled :
      (host password : Text) (s : ObsService × net.World)
      → Gives Dialled (dial net json host password s)
  unfolding dial
  dial-Dialled host password s =
      after-Gives {P = HasWs} Dialled _
        (shake_hands net json host password (record s.0 { has_ws = true }, s.1))
        (λ _ s h. (refl, refl, h)) (λ e s h. h)
        ((shake_hands-Safe host password).ends (record s.0 { has_ws = true }, s.1) refl)

  -- What `connectToOBS` gives is the flag, and the flag is set only with `m_ws`.
  abbrev pub Answers : Outcome Bool → ObsService × net.World → Type 0
  Answers (value b) s = (s.0.connected ≡ b) × ((b && s.0.has_ws) ≡ b)
  Answers (failed e) s = ⊥

  caught-Answers :
      (r : Option (Outcome Bool × (ObsService × net.World)))
      → Gives Dialled r
      → Gives Answers (
          handled (λ e. set_members net json (λ o. record o { connected = false }) >> pure false) r)
  caught-Answers none h = h
  caught-Answers (some (value b, s)) h = ground arith
  caught-Answers (some (failed e, s)) h = (refl, refl)

  opened-Answers :
      (o : ObsService) (r : Outcome (Unit {0}) × net.World)
      → Gives Answers (
          handled
            (λ e. set_members net json (λ o. record o { connected = false }) >> pure false)
            (after (λ _. dial net json o.obs_host o.obs_password) (some (r.0, (o, r.1)))))
  opened-Answers o (value a, w) = caught-Answers _ (dial-Dialled o.obs_host o.obs_password (o, w))
  opened-Answers o (failed e, w) = (refl, refl)

  -- From any state, a connection to OBS neither throws nor dereferences a null pointer: it gives
  -- the flag that it stores, and it gives `true` only with a WebSocket.
  pub connect_to_obs-Answers :
      (s : ObsService × net.World) → Gives Answers (connect_to_obs net json s)
  unfolding connect_to_obs open_ws
  connect_to_obs-Answers s = opened-Answers s.0 (net.resolve s.0.obs_host s.0.obs_password s.1)

-- ===== src/TwitchService/Owners/Matching.antt =====
-- src/core/twitch_service.cpp: that the owners are those of the service.
use mathlib.Core.Path.{subst}
use seraphbot.Base.{
  ℕ, ◌≡◌, refl, ap, Bool, true, false, not, Option, none, some, List, if◌then◌else◌, Text,
}
use seraphbot.Net.{Outcome, value, failed}
use seraphbot.TwitchService.{
  TwitchService, State, begin_connect, disconnect, finish_connect, set_state, setup_chat_services,
  can_connect, chat_connected, error,
}
use seraphbot.TwitchService.Owners.{
  other_subscribers, goes_on, follow, Owners, Store, Suspended, connect_store, setup_owners,
  release, resume, waiting, fails,
}

abbrev pub is_set {ℓ} : {A : Type ℓ} → Option A → Bool
is_set none = false
is_set (some a) = true

-- The same state, and the same pointers set.
pub record Matches (s : TwitchService) (o : Owners) : Type 0 where
  pub state : s.state ≡ o.state
  pub eventsub : is_set s.eventsub ≡ is_set o.eventsub
  pub chat_read : s.chat_read ≡ is_set o.chat_read

release-Matches : (s : TwitchService) (o : Owners) → Matches (disconnect s) (release o)
unfolding disconnect release set_state
release-Matches s o = record { state = refl; eventsub = refl; chat_read = refl }

set_up-Matches :
    (go go' : Bool) (s s' : TwitchService) (t t' : Store)
    → go ≡ go'
    → Matches s t.owners
    → Matches s' t'.owners
    → let r : Bool × TwitchService = if not go then (false, s) else (true, s') in
      let u : Store = if go' then t' else t in Matches r.1 u.owners
set_up-Matches true true s s' t t' e m m' = m'
set_up-Matches false false s s' t t' e m m' = m
set_up-Matches true false s s' t t' e m m' = cc
set_up-Matches false true s s' t t' e m m' = cc

connect_store-Matches :
    (s : TwitchService) (t : Store)
    → Matches s t.owners
    → Matches (begin_connect s).1 (connect_store t).owners
unfolding begin_connect connect_store set_state setup_chat_services setup_owners
connect_store-Matches s t m =
    set_up-Matches (can_connect s.state) (can_connect t.owners.state) s _ t _
      (ap can_connect m.state) m (record { state = refl; eventsub = refl; chat_read = refl })

-- The same pointers, and a state that both are put in.
state-Matches :
    (s : TwitchService) (o : Owners) (state : State) (status : Text)
    → Matches s o
    → Matches (set_state state status s) (record o { state = state })
unfolding set_state
state-Matches s o state status m = record {
  state = refl;
  eventsub = m.eventsub;
  chat_read = m.chat_read;
}

abbrev pub succeeded : Outcome (Unit {0}) → Bool
succeeded (value _) = true
succeeded (failed e) = false

fails-Matches :
    (s : TwitchService) (o o' : Owners) (more : List Suspended) (status : Text)
    → Matches s o
    → fails o ≡ some (more, o')
    → Matches (set_state error status s) o'
fails-Matches s o o' more status m h =
    let same : record o { state = error } ≡ o' = cc h in
    subst (Matches (set_state error status s)) same (state-Matches s o error status m)

connected-Matches :
    (s : TwitchService) (o o' : Owners) (more : List Suspended) (status : Text) (pointer : Option ℕ)
    → Matches s o
    → follow pointer (λ n. goes_on (other_subscribers n) (record o { state = chat_connected }))
      ≡ some (more, o')
    → Matches (set_state chat_connected status s) o'
connected-Matches s o o' more status none m h = cc
connected-Matches s o o' more status (some n) m h =
    let same : record o { state = chat_connected } ≡ o' = cc h in
    subst (Matches (set_state chat_connected status s)) same
      (state-Matches s o chat_connected status m)

finish-Matches :
    (s : TwitchService) (o o' : Owners) (more : List Suspended) (e : Outcome (Unit {0}))
    → Matches s o
    → resume (waiting true) (succeeded e) o ≡ some (more, o')
    → Matches (finish_connect e s) o'
unfolding resume finish_connect
finish-Matches s o o' more (value u) m h = connected-Matches s o o' more _ o.eventsub m h
finish-Matches s o o' more (failed e) m h = fails-Matches s o o' more _ m h

-- What changes the owners: a connection begins, its last await ends, and a disconnect.
pub data Change : TwitchService → Owners → TwitchService → Owners → Type 0 where
  begins :
      (s : TwitchService) (t : Store)
      → Change s t.owners (begin_connect s).1 (connect_store t).owners
  ends :
      (s : TwitchService) (o o' : Owners) (more : List Suspended) (e : Outcome (Unit {0}))
      → resume (waiting true) (succeeded e) o ≡ some (more, o')
      → Change s o (finish_connect e s) o'
  disconnects : (s : TwitchService) (o : Owners) → Change s o (disconnect s) (release o)

-- Where the state and the pointers of the service are those that the owners hold, they are so
-- behind each of the changes that both make.
pub Change-Matches :
    (s s' : TwitchService) (o o' : Owners) → Change s o s' o' → Matches s o → Matches s' o'
Change-Matches _ _ _ _ (begins s t) m = connect_store-Matches s t m
Change-Matches _ _ _ _ (ends s o o' more e h) m = finish-Matches s o o' more e m h
Change-Matches _ _ _ _ (disconnects s o) m = release-Matches s o

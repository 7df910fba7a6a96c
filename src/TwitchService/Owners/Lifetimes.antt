-- ===== src/TwitchService/Owners/Lifetimes.antt =====
-- src/core/twitch_service.cpp: whether a coroutine outlives the object that it is suspended in.
use mathlib.Core.Path.{subst}
use seraphbot.Base.{
  ℕ, ◌≡◌, refl, ap, ◌∙◌, ◌≢◌, ◌⊎◌, inl, inr, Bool, true, false, Option, none, some, List, [], ◌∷◌,
  ◌++◌, arith, Bool-cases, All, All-append,
}
use seraphbot.TwitchService.{State, connecting_to_chat, chat_connected, error, can_connect}
use seraphbot.TwitchService.Owners.{
  goes_on, uses, follow, fails, other_subscribers, Suspended, connecting, pausing, reader, reading,
  listener, subscriber, posting, waiting, Owners, Store, resume, connect_store, setup_owners,
  release, connects, resumes, Reachable, initial, next, is_alive, owns,
}

-- A coroutine is in no object but this one.
abbrev pub IsIn : ℕ → Suspended → Type 0
IsIn n (connecting m) = m ≡ n
IsIn n pausing = Unit
IsIn n reader = Unit
IsIn n (reading m) = m ≡ n
IsIn n (listener m) = m ≡ n
IsIn n (subscriber m) = m ≡ n
IsIn n (posting awaited m) = m ≡ n
IsIn n (waiting awaited) = Unit

-- The coroutine touches an object or a pointer when it goes on behind a success.
abbrev pub touches : Suspended → Bool
touches (waiting false) = false
touches _ = true

-- Once the owners are released, a coroutine that was suspended, wherever, uses a destroyed object
-- or a null pointer as soon as what it waits for succeeds, but for a spawned subscription in its
-- last pause.
pub resume-release :
    (c : Suspended) (o : Owners) → touches c ≡ true → resume c true (release o) ≡ none
unfolding resume release is_alive owns
resume-release (connecting n) o h = refl
resume-release pausing o h = refl
resume-release reader o h = refl
resume-release (reading n) o h = refl
resume-release (listener n) o h = refl
resume-release (subscriber n) o h = refl
resume-release (posting awaited n) o h = refl
resume-release (waiting true) o h = refl
resume-release (waiting false) o h = cc

-- Both owners own the object, and no further connection can begin.
pub record Owned (n : ℕ) (o : Owners) : Type 0 where
  pub eventsub : o.eventsub ≡ some n
  pub chat_read : o.chat_read ≡ some n
  pub closed : can_connect o.state ≡ false

is_alive-Owned : (n m : ℕ) (o : Owners) → Owned n o → m ≡ n → is_alive m o ≡ true
unfolding is_alive owns
is_alive-Owned n m o h e = rw h.eventsub (ground (arith, e))

-- Where both owners own the object that the coroutine is in, it goes on, and so do the others.
abbrev pub GoesOn : ℕ → Option (List Suspended × Owners) → Type 0
GoesOn n r =
    (more : List Suspended) × (o : Owners) × (r ≡ some (more, o)) × Owned n o × All (IsIn n) more

-- A state in which no connection begins, and the same owners.
state-Owned :
    (n : ℕ) (state : State) (o : Owners)
    → Owned n o
    → can_connect state ≡ false
    → Owned n (record o { state = state })
state-Owned n state o h closed = record {
  eventsub = h.eventsub;
  chat_read = h.chat_read;
  closed = closed;
}

fails-GoesOn : (n : ℕ) (o : Owners) → Owned n o → GoesOn n (fails o)
unfolding can_connect
fails-GoesOn n o h = ([], record o { state = error }, refl, state-Owned n error o h refl, tt)

resume-Owned :
    (n : ℕ) (c : Suspended) (ok : Bool) (o : Owners)
    → Owned n o
    → IsIn n c
    → GoesOn n (resume c ok o)
unfolding resume can_connect
resume-Owned n (connecting m) true o h i = (
  reader ∷ listener n ∷ pausing ∷ [],
  o,
  rw (is_alive-Owned n m o h i, h.eventsub) refl,
  h,
  (tt, (refl, (tt, tt))),
)
resume-Owned n (connecting m) false o h i = fails-GoesOn n o h
resume-Owned n pausing true o h i = (
  posting true n ∷ [],
  o,
  ap (λ q. follow q (λ m. uses m o (goes_on (posting true m ∷ []) o))) h.chat_read
      ∙ rw (is_alive-Owned n n o h refl) refl,
  h,
  (refl, tt),
)
resume-Owned n pausing false o h i = fails-GoesOn n o h
resume-Owned n reader ok o h i = (reading n ∷ [], o, rw h.eventsub refl, h, (refl, tt))
resume-Owned n (reading m) true o h i =
    (reading m ∷ [], o, rw (is_alive-Owned n m o h i) refl, h, (i, tt))
resume-Owned n (reading m) false o h i = ([], o, refl, h, tt)
resume-Owned n (listener m) ok o h i = ([], o, rw (is_alive-Owned n m o h i) refl, h, tt)
resume-Owned n (subscriber m) ok o h i =
    (posting false m ∷ [], o, rw (is_alive-Owned n m o h i) refl, h, (i, tt))
resume-Owned n (posting awaited m) true o h i =
    (waiting awaited ∷ [], o, rw (is_alive-Owned n m o h i) refl, h, (tt, tt))
resume-Owned n (posting true m) false o h i = fails-GoesOn n o h
resume-Owned n (posting false m) false o h i = ([], o, refl, h, tt)
resume-Owned n (waiting true) true o h i = (
  other_subscribers n,
  record o { state = chat_connected },
  rw h.eventsub refl,
  state-Owned n chat_connected o h refl,
  (refl, (refl, (refl, (refl, (refl, (refl, (refl, tt))))))),
)
resume-Owned n (waiting true) false o h i = fails-GoesOn n o h
resume-Owned n (waiting false) ok o h i = ([], o, refl, h, tt)

-- Nothing has begun, or every coroutine is in the object that both owners own.
abbrev pub Kept : Store → Type 0
Kept s = (s.suspended ≡ []) ⊎ ((n : ℕ) × Owned n s.owners × All (IsIn n) s.suspended)

All-split :
    (P : Suspended → Type 0) (before : List Suspended) (c : Suspended) (after : List Suspended)
    → All P (before ++ (c ∷ after))
    → All P before × P c × All P after
All-split P [] c after h = (tt, h.0, h.1)
All-split P (b ∷ before) c after h =
    let (l, m, r) = All-split P before c after h.1 in ((h.0, l), m, r)

not_empty :
    (before : List Suspended) (c : Suspended) (after : List Suspended) → before ++ (c ∷ after) ≢ []
not_empty [] c after h = cc
not_empty (b ∷ before) c after h = cc

connect_store_open :
    (s : Store)
    → can_connect s.owners.state ≡ true
    → connect_store s ≡ record {
      owners = record (setup_owners s.owners) { state = connecting_to_chat };
      suspended = connecting s.owners.fresh ∷ s.suspended;
    }
unfolding connect_store
connect_store_open s h = rw h refl

connect_store_closed : (s : Store) → can_connect s.owners.state ≡ false → connect_store s ≡ s
unfolding connect_store
connect_store_closed s h = rw h refl

connect_store-Kept : (s : Store) → Kept s → Kept (connect_store s)
unfolding setup_owners can_connect
connect_store-Kept s (inr (n, h, all)) = rw (connect_store_closed s h.closed) (inr (n, h, all))
connect_store-Kept s (inl e) = elim (Bool-cases (can_connect s.owners.state)) [
  | inl t ↦ rw (connect_store_open s t) (
      inr (
        s.owners.fresh,
        record { eventsub = refl; chat_read = refl; closed = refl },
        (refl, rw e tt),
      ))
  | inr f ↦ rw (connect_store_closed s f) (inl e)
]

resumed-Kept :
    (c : Suspended) (ok : Bool) (before after more : List Suspended) (o o' : Owners)
    → resume c ok o ≡ some (more, o')
    → Kept (record { owners = o; suspended = before ++ (c ∷ after) })
    → Kept (record { owners = o'; suspended = before ++ (more ++ after) })
resumed-Kept c ok before after more o o' e (inl empty) = absurd (not_empty before c after empty)
resumed-Kept c ok before after more o o' e (inr (n, h, all)) =
    let (l, m, r) = All-split (IsIn n) before c after all in
    let (more', p, same, owned, inside) = resume-Owned n c ok o h m in
    let equal : (more', p) ≡ (more, o') = cc (same, e) in
    let (owned', inside') : Owned n o' × All (IsIn n) more =
      subst (λ (q : List Suspended × Owners). Owned n q.1 × All (IsIn n) q.0) equal
        (owned, inside) in
    inr (
      n,
      owned',
      All-append (IsIn n) before (more ++ after) l (All-append (IsIn n) more after inside' r),
    )

Reachable-Kept : (s : Store) → Reachable s → Kept s
Reachable-Kept s initial = inl refl
Reachable-Kept s (next r (connects t)) = connect_store-Kept t (Reachable-Kept t r)
Reachable-Kept s (next r (resumes c ok before after more o o' e)) =
    resumed-Kept c ok before after more o o' e (Reachable-Kept _ r)

-- From the login on, as long as nobody disconnects, however often a connection is asked for and in
-- whatever order the coroutines go on and fail: none of them uses a destroyed object or a null
-- pointer.
pub Reachable-resume :
    (c : Suspended) (ok : Bool) (before after : List Suspended) (o : Owners)
    → Reachable (record { owners = o; suspended = before ++ (c ∷ after) })
    → (r : List Suspended × Owners) × (resume c ok o ≡ some r)
Reachable-resume c ok before after o reached = elim (Reachable-Kept _ reached) [
  | inl empty ↦ absurd (not_empty before c after empty)
  | inr (n, h, all) ↦
      (let (more, p, same, owned, inside) =
          resume-Owned n c ok o h (All-split (IsIn n) before c after all).1 in
        ((more, p), same))
]

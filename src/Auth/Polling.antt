-- ===== src/Auth/Polling.antt =====
-- Proofs about the token requests of the login.
use seraphbot.Base.{
  ℕ, zero, suc, ◌+◌, ◌*◌, ◌≤◌, ◌<◌, ◌≡◌, refl, ap, inl, inr, Bool, true, false, Option, none, some,
  arith, ltb, if◌then◌else◌, Bool-cases, Text, codes, is_empty,
}
use seraphbot.Net.{Outcome, value, failed, Failure, Net, JsonLibrary}
use seraphbot.Auth.{
  pause, request_token, bad_json, after_request, Auth, is_logged_in, State, take_tokens, poll, ask,
  rest_after,
}

module _ (net : Net) (json : JsonLibrary) where
  open net use {World, sleep}
  open json use {Json, parse, at, string_of}

  -- The pause behind a failure, by the failures so far: 300 ms up to the third, and from the fourth
  -- on 300 ms for each.
  abbrev rest : ℕ → ℕ
  rest failures = if ltb failures 4 then 300 else 300 * failures

  -- A run of the loop from a count of attempts: rounds whose request fails, each 300 ms
  -- behind the last and with a pause behind it, up to the first that succeeds, or to the tenth.
  pub data Polled : ℕ → State net json → Bool → State net json → Type 0 where
    succeeds :
        (attempts : ℕ) (s t : State net json)
        → attempts < 10
        → request_token net json (s.0, sleep 300 s.1) ≡ (value tt, t)
        → Polled attempts s true t
    retries :
        (attempts : ℕ) (s t u : State net json) (e : Failure) (got : Bool)
        → attempts < 10
        → request_token net json (s.0, sleep 300 s.1) ≡ (failed e, t)
        → Polled (attempts + 1) (t.0, sleep (rest (attempts + 1)) t.1) got u
        → Polled attempts s got u
    gives_up : (attempts : ℕ) (s : State net json) → 10 ≤ attempts → Polled attempts s false s

  -- The loop has ended, and has run so.
  abbrev pub Ends : ℕ → State net json → Outcome (Option Bool) × State net json → Type 0
  Ends attempts s r =
      (got : Bool) × (u : State net json) × (r ≡ (value (some got), u)) × Polled attempts s got u

  rest-pause : (failures : ℕ) → rest failures ≡ pause failures
  rest-pause failures = ground arith

  resting : (failures : ℕ) (t : State net json) → State net json
  resting failures t = (t.0, sleep (rest failures) t.1)

  rest_after-resting :
      (failures : ℕ) (t : State net json) → resting failures t ≡ rest_after net json failures t
  unfolding rest_after resting
  rest_after-resting failures t = ap (λ m. (t.0, sleep m t.1)) (rest-pause failures)

  after_request-Ends :
      (retry : State net json → Outcome (Option Bool) × State net json) (attempts : ℕ)
      (s t : State net json) (o : Outcome (Unit {0}))
      → attempts < 10
      → ask net json s ≡ (o, t)
      → ((u : State net json)
          → Ends (attempts + 1) (rest_after net json (attempts + 1) u) (retry u))
      → Ends attempts s (after_request net json retry o t)
  unfolding ask resting
  after_request-Ends retry attempts s t (value tt) h e again =
      (true, t, refl, succeeds attempts s t h e)
  after_request-Ends retry attempts s t (failed f) h e again =
      let (got, u, same, run) = again t in
      (
        got,
        u,
        same,
        retries attempts s t u f got h e (rw (rest_after-resting (attempts + 1) t) run),
      )

  below : (attempts : ℕ) → ltb attempts 10 ≡ true → attempts < 10
  below attempts e = ground arith

  -- From at most ten attempts, and with more fuel than are left of the ten, the loop ends by itself,
  -- however the requests end: each round waits 300 ms and makes a request; the first that succeeds
  -- ends the loop with `true`, and where all that are left of the ten fail it ends with `false`. A
  -- failure adds one attempt and a pause, of 300 ms up to the third and of 300 ms for each from the
  -- fourth on.
  pub poll-Ends :
      (fuel attempts : ℕ) (s : State net json)
      → attempts ≤ 10
      → 10 < fuel + attempts
      → Ends attempts s (poll net json fuel attempts s)
  unfolding poll
  poll-Ends zero attempts s l h = absurd (omega (arith, l, h))
  poll-Ends (suc fuel) attempts s l h = elim (Bool-cases (ltb attempts 10)) [
    | inl e ↦ rw e (
        after_request-Ends _ attempts s (ask net json s).1 (ask net json s).0 (below attempts e)
          refl
          (λ u.
            poll-Ends fuel (attempts + 1) (rest_after net json (attempts + 1) u)
              (omega (arith, below attempts e)) (omega (arith, h))))
    | inr e ↦ rw e (false, s, refl, gives_up attempts s (ground arith))
  ]

  take_tokens_stored :
      (response_body token : Text) (a : Auth) (w : World) {j v : Json}
      → parse response_body ≡ some j
      → at j (codes "access_token") ≡ some v
      → string_of v ≡ some token
      → at j (codes "refresh_token") ≡ none
      → take_tokens net json response_body (a, w)
        ≡ (failed (bad_json net json), (record a { access_token = token }, w))
  unfolding take_tokens
  take_tokens_stored response_body token a w parsed there text missing = ground arith

  -- A response with an access token that is not empty and no refresh token is a failure that leaves
  -- the access token stored: from then on the object counts as logged in.
  pub take_tokens_partial :
      (response_body token : Text) (a : Auth) (w : World) {j v : Json}
      → parse response_body ≡ some j
      → at j (codes "access_token") ≡ some v
      → string_of v ≡ some token
      → at j (codes "refresh_token") ≡ none
      → is_empty token ≡ false
      → ((e : Failure) × ((take_tokens net json response_body (a, w)).0 ≡ failed e))
        × (is_logged_in (take_tokens net json response_body (a, w)).1.0 ≡ true)
  unfolding is_logged_in
  take_tokens_partial response_body token a w parsed there text missing filled =
      rw (take_tokens_stored response_body token a w parsed there text missing)
        ((bad_json net json, refl), rw filled)

-- ===== src/Auth.antt =====
-- src/tw/auth.cpp and include/seraphbot/tw/auth.hpp: the login flow against the OAuth server.
-- `std::get_time` with `timegm`, the random numbers and the start of the browser are arguments.
pub mod Polling
pub mod User
pub mod Secrets
use seraphbot.Base.{
  ℕ, zero, suc, ◌+◌, ◌-◌, ◌*◌, ◌/◌, ◌%◌, ◌^◌, ◌≤◌, ◌<◌, String, ◌≡◌, refl, sym, ap, ◌∙◌, ◌≢◌, ◌↔◌,
  ◌⊎◌, inl, inr, Bool, true, false, not, ◌&&◌, ◌||◌, Option, none, some, List, [], ◌∷◌, ◌++◌, map,
  append-nil, append_assoc, arith, ltb, leb, ◌==◌, if◌then◌else◌, ==_iff, Bool-cases, Option-cases,
  length, drop, take, length-append, drop-length_append, All, All-append, All-mono, any_of, Text,
  codes, text_eq, text_eq_iff, text_eq_refl, starts_with, starts_with-append, starts_with-split,
  is_empty, to_lower, lower, to_lower_idem, lower_idem, is_space, to_text, ℤ, pos, negsuc, pos_part,
  neg_part, sub_ℕ, ltb_ℤ, clamp, clamp_bounds,
}
use seraphbot.Net.{
  Outcome, value, failed, Failure, system_error, other_error, what, Verb, get, Request, Response,
  Net, JsonLibrary, Run, ◌>>=◌, ◌>>◌, pure, throw, change, catch, or_throw,
}

pub record TwitchUserInfo : Type 0 where
  pub id : Text
  pub login : Text
  pub display_name : Text
  pub broadcaster_type : Text
  pub description : Text
  pub created_at : ℕ
  pub profile_image_url : Text
  pub view_count : ℕ
  pub offline_image_url : Text
  pub email : Text

pub record Auth : Type 0 where
  pub url_base : Text
  pub access_token : Text
  pub client_id : Text
  pub state : Text
  pub refresh_token : Text

unfoldable pub new_auth : Text → Auth
new_auth url_base = record {
  url_base = url_base;
  access_token = [];
  client_id = [];
  state = [];
  refresh_token = [];
}

unfoldable pub is_logged_in : Auth → Bool
is_logged_in a = not (is_empty a.access_token)

abbrev pub alphanum : Text
alphanum = codes "0123456789ABCDEFGHIJKLMNOPQRSTUVWXYZabcdefghijklmnopqrstuvwxyz"

abbrev pub state_length : ℕ
state_length = 16

-- `c_alphanum[i]`; the distribution gives no index past the end.
unfoldable pub pick : Text → ℕ → ℕ
pick [] i = 0
pick (c ∷ cs) zero = c
pick (c ∷ cs) (suc i) = pick cs i

-- `std::ranges::generate` over `n` characters. `dis i` is the number that the distribution gives
-- for the character `i`.
generate : (ℕ → ℕ) → ℕ → ℕ → Text
generate dis i zero = []
generate dis i (suc n) = pick alphanum (dis i) ∷ generate dis (suc i) n

unfoldable pub generate_state : (ℕ → ℕ) → Text
unfolding generate pick
generate_state dis = generate dis 0 state_length

abbrev pub port : Text
port = codes "443"

unfoldable pub http_request : Text → Text → Request
http_request url_base url = record {
  verb = get;
  target = url;
  fields =
      (codes "Host", url_base)
      ∷ (codes "User-Agent", codes "seraphbot-auth/0.1")
      ∷ (codes "Connection", codes "close")
      ∷ [];
  body = [];
}

-- The tests of the status behind the shutdown.
unfoldable pub read_response : Response → Outcome Text
read_response res =
    if not (res.status == 200) && not (res.status == 302)
    then failed (other_error (codes "HTTP request failed with status: " ++ to_text res.status))
    else if res.status == 302
    then (if is_empty res.location
        then failed (other_error (codes "Redirect response missing Location header"))
        else value res.location)
    else value res.body

-- The two handlers of `getHttpAsync`.
wrap_failure : Failure → Failure
wrap_failure (system_error text) = other_error (codes "HTTP request failed: " ++ text)
wrap_failure (other_error text) = other_error text

abbrev pub delay : ℕ
delay = 300

-- The pause behind a failed poll, by the number of failures so far.
abbrev pub pause : ℕ → ℕ
pause attempts = if leb 4 attempts then delay * attempts else delay

abbrev pub max_attempts : ℕ
max_attempts = 10

module _ (net : Net) (json : JsonLibrary) where
  open net use {World, open_stream, round_trip, shut_down, sleep}
  open json use {
    Json, parse, contains, index, at, string_of, is_array, empty, first, value_text, value_number,
  }

  -- The members of the object, and the outside.
  abbrev pub State : Type 0
  State = Auth × World

  abbrev pub outside : {A : Type 0} → Run World A → Run State A
  outside m (a, w) = let (o, w') = m w in (o, (a, w'))

  abbrev pub this : Run State Auth
  this (a, w) = (value a, (a, w))

  abbrev update : (Auth → Auth) → Run State (Unit {0})
  update f (a, w) = (value tt, (f a, w))

  -- The inner `try` takes the shutdown's system errors, which are logged at most.
  quiet_shut_down : Run World (Unit {0})
  quiet_shut_down =
      catch shut_down
        (λ e. elim e [ system_error text ↦ pure tt | other_error text ↦ throw (other_error text) ])

  fetch : Text → Text → Run World Text
  fetch url_base url = do
    open_stream url_base port
    response ← round_trip (http_request url_base url)
    quiet_shut_down
    λ w. (read_response response, w)

  unfoldable pub get_http : Text → Run State Text
  unfolding quiet_shut_down fetch wrap_failure
  get_http url = do a ← this; outside (catch (fetch a.url_base url) (λ e. throw (wrap_failure e)))

  unfoldable pub bad_json : Failure
  bad_json = other_error (codes "json")

  -- `json_res.at(key).get<std::string>()`
  required : Json → Text → Run State Text
  required j key = do v ← or_throw (at j key) bad_json; or_throw (string_of v) bad_json

  unfoldable pub fetch_client_id : Run State Text
  unfolding required bad_json
  fetch_client_id = do
    response_body ← get_http (codes "/client_id")
    json_res ← or_throw (parse response_body) bad_json
    id ← required json_res (codes "client_id")
    update (λ a. record a { client_id = id })
    pure id

  unfoldable pub get_auth_url : (ℕ → ℕ) → Run State Text
  get_auth_url dis = do
    update (λ a. record a { state = generate_state dis })
    get_http (codes "/auth_url?state=" ++ generate_state dis)

  store_token : Text → Run State (Unit {0})
  store_token token = update (λ a. record a { access_token = token })

  store_refresh_token : Text → Run State (Unit {0})
  store_refresh_token token = update (λ a. record a { refresh_token = token })

  -- What `requestTokenAsync` does with the response: the access token is stored before the refresh
  -- token is looked for.
  unfoldable pub take_tokens : Text → Run State (Unit {0})
  unfolding required bad_json store_token store_refresh_token
  take_tokens response_body = do
    json_res ← or_throw (parse response_body) bad_json
    token ← required json_res (codes "access_token")
    store_token token
    refresh_token ← required json_res (codes "refresh_token")
    store_refresh_token refresh_token

  unfoldable pub request_token : Run State (Unit {0})
  request_token = do
    a ← this
    response_body ← get_http (codes "/token?state=" ++ a.state)
    take_tokens response_body

  -- What follows a request: a failure is caught, and the loop goes on.
  abbrev pub after_request :
      (State → Outcome (Option Bool) × State)
      → Outcome (Unit {0})
      → State
      → Outcome (Option Bool) × State
  after_request retry (value _) s = (value (some true), s)
  after_request retry (failed e) s = retry s

  -- What the loop of `loginAsync` waits for in a round: a delay, and the request.
  unfoldable pub ask : Run State (Unit {0})
  ask (a, w) = request_token (a, sleep delay w)

  -- The pause at the end of a round that failed, by the attempts counted then.
  unfoldable pub rest_after : ℕ → State → State
  rest_after attempts (a, w) = (a, sleep (pause attempts) w)

  -- The loop, whose test is `attempts < max_attempts`, by fuel. The result is `got_token`; `none` is
  -- a loop that has not ended.
  unfoldable pub poll : ℕ → ℕ → Run State (Option Bool)
  poll zero attempts s = (value none, s)
  poll (suc fuel) attempts s =
      if ltb attempts max_attempts
      then after_request (λ u. poll fuel (attempts + 1) (rest_after (attempts + 1) u)) (ask s).0
          (ask s).1
      else (value (some false), s)

  -- More fuel than the rounds that the test lets through.
  abbrev pub poll_fuel : ℕ
  poll_fuel = suc max_attempts

  timeout : Failure
  timeout = other_error (codes "Authorization timeout")

  -- What follows the loop.
  check_token : Option Bool → Run State (Unit {0})
  unfolding timeout
  check_token (some true) = pure tt
  check_token _ = throw timeout

  -- `open_browser` starts the system's program for the URL, or throws.
  unfoldable pub login : (ℕ → ℕ) → (Text → Run World (Unit {0})) → Run State (Unit {0})
  unfolding check_token
  login dis open_browser = do
    id ←
        catch fetch_client_id
          (λ e. throw (other_error (codes "Failed to fetch client ID: {}" ++ what e)))
    url ← get_auth_url dis
    outside (open_browser url)
    got_token ← poll poll_fuel 0
    check_token got_token

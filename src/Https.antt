-- ===== src/Https.antt =====
-- src/tw/config.cpp and include/seraphbot/tw/config.hpp: the client's configuration, and one HTTPS
-- request over a connection of its own.
pub mod Requests
use seraphbot.Base.{
  ℕ, zero, suc, ◌+◌, ◌-◌, ◌*◌, ◌/◌, ◌%◌, ◌^◌, ◌≤◌, ◌<◌, String, ◌≡◌, refl, sym, ap, ◌∙◌, ◌≢◌, ◌↔◌,
  ◌⊎◌, inl, inr, Bool, true, false, not, ◌&&◌, ◌||◌, Option, none, some, List, [], ◌∷◌, ◌++◌, map,
  append-nil, append_assoc, arith, ltb, leb, ◌==◌, if◌then◌else◌, ==_iff, Bool-cases, Option-cases,
  length, drop, take, length-append, drop-length_append, All, All-append, All-mono, any_of, Text,
  codes, text_eq, text_eq_iff, text_eq_refl, starts_with, starts_with-append, starts_with-split,
  is_empty, to_lower, lower, to_lower_idem, lower_idem, is_space, to_text, ℤ, pos, negsuc, pos_part,
  neg_part, sub_ℕ, ltb_ℤ, clamp, clamp_bounds,
}
use seraphbot.Net.{
  Outcome, value, failed, Failure, system_error, other_error, Verb, get, post, Request, Response,
  Net, Run, ◌>>=◌, ◌>>◌, pure, throw, catch,
}

pub record ClientConfig : Type 0 where
  pub host : Text
  pub port : Text
  pub helix_host : Text
  pub helix_port : Text
  pub client_id : Text
  pub access_token : Text
  pub broadcaster_id : Text

abbrev pub default_client_config : ClientConfig
default_client_config = record {
  host = codes "eventsub.wss.twitch.tv";
  port = codes "443";
  helix_host = codes "api.twitch.tv";
  helix_port = codes "443";
  client_id = [];
  access_token = [];
  broadcaster_id = [];
}

unfoldable pub strip_oauth_prefix : Text → Text
strip_oauth_prefix token = if starts_with token (codes "oauth:") then drop 6 token else token

abbrev pub user_agent : Text
user_agent = codes "seraphbot-eventsub/0.1"

unfoldable pub post_request : Text → Text → Text → List (Text × Text) → Request
post_request host target body headers = record {
  verb = post;
  target = target;
  fields =
      (codes "Host", host)
      ∷ (codes "User-Agent", user_agent)
      ∷ (codes "Content-Type", codes "application/json")
      ∷ (codes "Connection", codes "close")
      ∷ headers;
  body = body;
}

unfoldable pub get_request : Text → Text → List (Text × Text) → Request
get_request host target headers = record {
  verb = get;
  target = target;
  fields =
      (codes "Host", host)
      ∷ (codes "User-Agent", user_agent)
      ∷ (codes "Connection", codes "close")
      ∷ headers;
  body = [];
}

module _ (net : Net) where
  open net use {World, open_stream, round_trip, shut_down}

  -- `catch (const beast::system_error &)` around the shutdown, whose errors are logged at most.
  unfoldable pub shut_down_quietly : Run World (Unit {0})
  shut_down_quietly =
      catch shut_down
        (λ e. elim e [ system_error text ↦ pure tt | other_error text ↦ throw (other_error text) ])

  unfoldable pub exchange : Text → Text → Request → Run World Text
  exchange host port request = do
    open_stream host port
    response ← round_trip request
    shut_down_quietly
    pure response.body

  unfoldable pub https_post : Text → Text → Text → Text → List (Text × Text) → Run World Text
  unfolding exchange shut_down_quietly
  https_post host port target body headers =
      exchange host port (post_request host target body headers)

  unfoldable pub https_get : Text → Text → Text → List (Text × Text) → Run World Text
  unfolding exchange shut_down_quietly
  https_get host port target headers = exchange host port (get_request host target headers)

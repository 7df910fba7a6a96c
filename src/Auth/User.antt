-- ===== src/Auth/User.antt =====
-- src/tw/auth.cpp: the user whose token it is, up from `fetchUserInfoAsync`.
use seraphbot.Base.{ℕ, not, ◌||◌, Option, [], ◌++◌, if◌then◌else◌, Text, codes, is_empty}
use seraphbot.Auth.{TwitchUserInfo, State, this, get_http, bad_json}
use seraphbot.Net.{Failure, other_error, Net, JsonLibrary, Run, ◌>>=◌, pure, throw, or_throw}

module _ (net : Net) (json : JsonLibrary) where
  open json use {Json, parse, contains, index, is_array, empty, first, value_text, value_number}

  no_user : Failure
  no_user = other_error (codes "No user data found in Twitch response")

  -- `parseTime`, around `std::get_time` and `timegm`, which give a time or fail.
  parse_time : (Text → Option ℕ) → Text → Run (State net json) ℕ
  parse_time get_time str =
      or_throw (get_time str) (other_error (codes "Invalid time format: " ++ str))

  -- `created_at`, which stays at the epoch if the response has none.
  created_time : (Text → Option ℕ) → Text → Run (State net json) ℕ
  unfolding parse_time
  created_time get_time str = if is_empty str then pure 0 else parse_time get_time str

  text_or_empty : Json → Text → Run (State net json) Text
  text_or_empty user key = or_throw (value_text user key []) (bad_json net json)

  -- The test for `data`, and its first item.
  first_user : Json → Run (State net json) Json
  first_user user_json = if not (contains user_json (codes "data")) then throw no_user else (do
    data_items ← or_throw (index user_json (codes "data")) (bad_json net json)
    if not (is_array data_items) || empty data_items
        then throw no_user
        else or_throw (first data_items) (bad_json net json))

  unfoldable pub parse_twitch_user : (Text → Option ℕ) → Json → Run (State net json) TwitchUserInfo
  unfolding no_user created_time text_or_empty first_user
  parse_twitch_user get_time user_json = do
    user ← first_user user_json
    created_str ← text_or_empty user (codes "created_at")
    created_at ← created_time get_time created_str
    id ← text_or_empty user (codes "id")
    login ← text_or_empty user (codes "login")
    display_name ← text_or_empty user (codes "display_name")
    broadcaster_type ← text_or_empty user (codes "broadcaster_type")
    description ← text_or_empty user (codes "description")
    profile_image_url ← text_or_empty user (codes "profile_image_url")
    view_count ← or_throw (value_number user (codes "view_count") 0) (bad_json net json)
    offline_image_url ← text_or_empty user (codes "offline_image_url")
    email ← text_or_empty user (codes "email")
    pure (record {
      id = id;
      login = login;
      display_name = display_name;
      broadcaster_type = broadcaster_type;
      description = description;
      created_at = created_at;
      profile_image_url = profile_image_url;
      view_count = view_count;
      offline_image_url = offline_image_url;
      email = email;
    })

  unfoldable pub fetch_user_info : (Text → Option ℕ) → Run (State net json) TwitchUserInfo
  fetch_user_info get_time = do
    a ← this net json
    response_body ← get_http net json (codes "/user_info?state=" ++ a.state)
    json_res ← or_throw (parse response_body) (bad_json net json)
    parse_twitch_user get_time json_res

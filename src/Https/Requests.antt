-- ===== src/Https/Requests.antt =====
-- Proofs about the requests, and about the token's prefix.
use seraphbot.Base.{
  ◌≡◌, refl, ◌⊎◌, inl, inr, false, List, ◌++◌, arith, Bool-cases, Text, codes, starts_with,
  starts_with-split,
}
use seraphbot.Net.{Outcome, value, failed, system_error, Response, Net}
use seraphbot.Https.{strip_oauth_prefix, post_request, https_post}

abbrev oauth : Text
oauth = codes "oauth:"

-- The prefix is taken off where it stands, once, and any other token is left as it is.
pub strip_oauth_prefix_lem :
    (token : Text)
    → (token ≡ oauth ++ strip_oauth_prefix token)
      ⊎ ((starts_with token oauth ≡ false) × (strip_oauth_prefix token ≡ token))
unfolding strip_oauth_prefix
strip_oauth_prefix_lem token = elim (Bool-cases (starts_with token oauth)) [
  | inl there ↦ let (rest, e) = starts_with-split token oauth there in inl (rw there (rw e refl))
  | inr none_there ↦ inr (none_there, rw none_there)
]

module _ (net : Net) where
  open net use {World, open_stream, round_trip, shut_down}

  -- The body of the response is returned, whatever its status, once the response is read; neither
  -- a clean shutdown nor a system error in it changes that.
  pub https_post_body :
      (host port target body : Text) (headers : List (Text × Text)) (w : World) {w1 w2 : World}
      {response : Response} {end : Outcome (Unit {0})}
      → open_stream host port w ≡ (value tt, w1)
      → round_trip (post_request host target body headers) w1 ≡ (value response, w2)
      → (shut_down w2).0 ≡ end
      → (end ≡ value tt) ⊎ ((text : Text) × (end ≡ failed (system_error text)))
      → https_post net host port target body headers w ≡ (value response.body, (shut_down w2).1)
  unfolding https_post
  https_post_body host port target body headers w opened answered ended quiet = ground arith

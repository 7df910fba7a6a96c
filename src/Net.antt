-- ===== src/Net.antt =====
-- What the network code takes from outside of it: the connections of
-- src/core/connection_manager.cpp (Connections makes them from Boost.Asio) with the HTTP of
-- Boost.Beast over them, the timers of Boost.Asio, and the JSON of nlohmann. A coroutine is run to its end, with the state of the outside passed on.
use seraphbot.Base.{ℕ, Bool, Option, none, some, List, Text, ℤ}

-- A `beast::system_error`, or another `std::exception`, with its `what()`.
pub data Failure : Type 0 where
  system_error other_error : Text → Failure

pub data Outcome {ℓ} (A : Type ℓ) : Type ℓ where
  value : A → Outcome A
  failed : Failure → Outcome A

abbrev pub what : Failure → Text
what (system_error text) = text
what (other_error text) = text

pub data Verb : Type 0 where
  get post : Verb

-- A request with its header fields in the order of the calls of `set`.
pub record Request : Type 0 where
  pub verb : Verb
  pub target : Text
  pub fields : List (Text × Text)
  pub body : Text

pub record Response : Type 0 where
  pub status : ℕ
  pub location : Text
  pub body : Text

pub record Net : Type 1 where
  pub World : Type 0
  -- `makeSslStreamAsync` and the handshake; writing a request and reading its response; the
  -- shutdown of the stream.
  pub open_stream : Text → Text → World → Outcome (Unit {0}) × World
  pub round_trip : Request → World → Outcome Response × World
  pub shut_down : World → Outcome (Unit {0}) × World
  -- A timer, in milliseconds.
  pub sleep : ℕ → World → World

-- JSON values. `index` is `operator[]`, which gives null at a missing key of an object, `at` throws
-- there; `first` is `operator[](0)`; `value_text` and `value_number` are `value` with a default.
-- `none` is an exception.
pub record JsonLibrary : Type 1 where
  pub Json : Type 0
  pub parse : Text → Option Json
  pub dump : Json → Option Text
  pub contains : Json → Text → Bool
  pub index : Json → Text → Option Json
  pub at : Json → Text → Option Json
  pub string_of : Json → Option Text
  pub items : Json → List Json
  pub is_array : Json → Bool
  pub empty : Json → Bool
  pub first : Json → Option Json
  pub value_text : Json → Text → Text → Option Text
  pub value_number : Json → Text → ℕ → Option ℕ
  pub value_integer : Json → Text → ℤ → Option ℤ
  pub integer_of : Json → Option ℤ
  -- `== true`
  pub is_true : Json → Bool
  pub text : Text → Json
  pub integer : ℤ → Json
  pub boolean : Bool → Json
  pub array : List Json → Json
  pub object : List (Text × Json) → Json

-- A coroutine that runs to its end over the state `W`. An exception keeps what was changed.
abbrev pub Run : Type 0 → Type 0 → Type 0
Run W A = W → Outcome A × W

infixl 5 ◌>>=◌ ◌>>◌
abbrev pub ◌>>=◌ : {W A B : Type 0} → Run W A → (A → Run W B) → Run W B
◌>>=◌ m f w = let (o, w') = m w in elim o [ value a ↦ f a w' | failed e ↦ (failed e, w') ]

abbrev pub ◌>>◌ : {W B : Type 0} → Run W (Unit {0}) → Run W B → Run W B
m >> k = m >>= λ _. k

abbrev pub pure : {W A : Type 0} → A → Run W A
pure a w = (value a, w)

abbrev pub throw : {W A : Type 0} → Failure → Run W A
throw e w = (failed e, w)

-- A step that cannot fail.
abbrev pub change : {W : Type 0} → (W → W) → Run W (Unit {0})
change f w = (value tt, f w)

-- `catch (const std::exception &)`, which takes every failure.
abbrev pub catch : {W A : Type 0} → Run W A → (Failure → Run W A) → Run W A
catch m f w = let (o, w') = m w in elim o [ value a ↦ (value a, w') | failed e ↦ f e w' ]

-- What an expression gives that throws `e` if it has no value.
abbrev pub or_throw : {W A : Type 0} → Option A → Failure → Run W A
or_throw none e w = (failed e, w)
or_throw (some a) e w = (value a, w)

-- A step of the outside beside the local variables or members `S`, and a step of these alone.
abbrev pub beside : {S W A : Type 0} → Run W A → Run (S × W) A
beside m (s, w) = let (o, w') = m w in (o, (s, w'))

abbrev pub assign : {S W : Type 0} → (S → S) → Run (S × W) (Unit {0})
assign f (s, w) = (value tt, (f s, w))

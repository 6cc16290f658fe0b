-- ===== src/Proxy/Addons/Auth/Sessions.antt =====
-- The connections that have passed proxy authentication, over any sequence of events.
-- What the server does with the gate: a CONNECT request with its Proxy-Authorization header, a SOCKS
-- client with its credentials, or the end of a connection.
use gowebfilter.Base.{
  ℕ, ◌≡◌, refl, ap, ◌∙◌, inl, inr, Bool, true, false, ◌&&◌, ◌||◌, not, Option, none, some, List, [],
  ◌∷◌, arith, ◌==◌, if◌then◌else◌, Bool-cases, or_else, Bytes, any_of,
}
use gowebfilter.Proxy.Addons.Auth.{
  auth_required, authorize_connect, authorize_socks, client_disconnected, is_authed, mark_authed,
  valid_credentials, valid_header,
}
use gowebfilter.Proxy.Addons.Env.{Env}

pub data Event : Type 0 where
  connects : Bytes → ℕ → Event
  socks : Bytes → Bytes → ℕ → Event
  disconnects : ℕ → Event

gone : (b x : Bool) → (if b then false else x) ≡ or_else (if b then some false else none) x
gone true x = refl
gone false x = refl

with_true : (b : Bool) → b ≡ b && true
with_true true = refl
with_true false = refl

with_false : (b : Bool) → false ≡ b && false
with_false true = refl
with_false false = refl

module _ (env : Env) where
  abbrev pub step : Event → List ℕ → List ℕ
  step (connects header conn) authed = (authorize_connect env header conn authed).1
  step (socks user password conn) authed = (authorize_socks env user password conn authed).1
  step (disconnects conn) authed = client_disconnected env conn authed

  -- The set after a sequence of events, of which the newest is the first.
  unfoldable pub authed_after : List Event → List ℕ
  authed_after [] = []
  authed_after (e ∷ older) = step e (authed_after older)

  -- What an event says of a connection: it is admitted, it is gone, or nothing.
  abbrev pub says : ℕ → Event → Option Bool
  says c (connects header conn) =
      if c == conn && (not (auth_required env) || valid_header env header) then some true else none
  says c (socks user password conn) =
      if c == conn && (not (auth_required env) || valid_credentials env user password)
      then some true
      else none
  says c (disconnects conn) = if c == conn then some false else none

  -- The newest event that says something of the connection; before all of them it is not admitted.
  unfoldable pub last_word : ℕ → List Event → Bool
  last_word c [] = false
  last_word c (e ∷ older) = or_else (says c e) (last_word c older)

  is_authed-client_disconnected :
      (c conn : ℕ) (authed : List ℕ)
      → is_authed env c (client_disconnected env conn authed)
        ≡ (if c == conn then false else is_authed env c authed)
  unfolding is_authed client_disconnected any_of
  is_authed-client_disconnected c conn [] = ground arith
  is_authed-client_disconnected c conn (d ∷ authed) =
      ground (arith, is_authed-client_disconnected c conn authed)

  marked :
      (c conn : ℕ) (authed : List ℕ)
      → is_authed env c (mark_authed env conn authed)
        ≡ or_else (if c == conn then some true else none) (is_authed env c authed)
  unfolding is_authed mark_authed any_of
  marked c conn authed = elim (Bool-cases (c == conn)) [
    | inl same ↦ rw same (ground (arith, same))
    | inr apart ↦ rw apart (ground (arith, apart))
  ]

  -- The two tests that a gate makes, on their outcomes.
  abbrev answer : ℕ → Bool → Bool → List ℕ → Bool × List ℕ
  answer conn required valid authed =
      if not required
      then (true, mark_authed env conn authed)
      else if valid
      then (true, mark_authed env conn authed)
      else (false, authed)

  granted :
      (c conn : ℕ) (required valid : Bool) (authed : List ℕ)
      → is_authed env c (answer conn required valid authed).1
        ≡ or_else
            (if c == conn && (not required || valid) then some true else none)
            (is_authed env c authed)
  granted c conn false valid authed =
      marked c conn authed
      ∙ ap (λ b. or_else (if b then some true else none) (is_authed env c authed))
          (with_true (c == conn))
  granted c conn true true authed =
      marked c conn authed
      ∙ ap (λ b. or_else (if b then some true else none) (is_authed env c authed))
          (with_true (c == conn))
  granted c conn true false authed =
      ap (λ b. or_else (if b then some true else none) (is_authed env c authed))
        (with_false (c == conn))

  is_authed-step :
      (c : ℕ) (e : Event) (authed : List ℕ)
      → is_authed env c (step e authed) ≡ or_else (says c e) (is_authed env c authed)
  unfolding authorize_connect authorize_socks
  is_authed-step c (disconnects conn) authed =
      is_authed-client_disconnected c conn authed ∙ gone (c == conn) (is_authed env c authed)
  is_authed-step c (connects header conn) authed =
      granted c conn (auth_required env) (valid_header env header) authed
  is_authed-step c (socks user password conn) authed =
      granted c conn (auth_required env) (valid_credentials env user password) authed

  -- After any sequence of events a connection is authorised exactly when the newest event that says
  -- something of it is an authorisation: one that was asked for where authentication is off, or with
  -- valid credentials, and not the end of the connection.
  pub is_authed-authed_after :
      (c : ℕ) (es : List Event) → is_authed env c (authed_after es) ≡ last_word c es
  unfolding authed_after last_word is_authed any_of
  is_authed-authed_after c [] = refl
  is_authed-authed_after c (e ∷ older) =
      is_authed-step c e (authed_after older)
      ∙ ap (or_else (says c e)) (is_authed-authed_after c older)

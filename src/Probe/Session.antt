-- ===== src/Probe/Session.antt =====
-- What net/http does with the hooks that httpProbe of internal/probe/executor.go gives it. The
-- client connects through DialContext only and asks CheckRedirect before it follows a redirect; when
-- it does either is the client's choice, so that a request is a tree of such steps.
use foip_operator.Prelude.{
  ℕ, ◌+◌, ℤ, String, Bool, not, Option, none, some, List, [], ◌∷◌, ◌++◌, if◌then◌else◌,
}
use foip_operator.Api.Types.{ProbeTarget, ProbeNetworkPolicy}
use foip_operator.Controller.Env.{Result, ok, err}
use foip_operator.Probe.Policy.{Address, Net, dial_allowed_context, validate_target}

-- The status and the bytes that are read of the body.
pub record HttpResponse : Type 0 where
  pub status : ℤ
  pub body : String

pub data Session : Type 0 where
  -- a connection to an address, and what follows a connection and a failure
  dials : String → Session → Session → Session
  -- a response that redirects to a host, and what follows if the redirect is taken
  redirects : String → HttpResponse → Session → Session
  -- the response that Do returns, or its error
  ends : Option HttpResponse → Session

-- What came of a session: the addresses that were dialed, and the hosts that it was led to.
pub record Trip : Type 0 where
  pub response : Option HttpResponse
  pub tried : List Address
  pub followed : List String

abbrev pub at_end : Option HttpResponse → Trip
at_end response = record { response = response; tried = []; followed = [] }

abbrev pub dialed : List Address → Trip → Trip
dialed ips trip = record trip { tried = ips ++ trip.tried }

abbrev pub led_to : String → Trip → Trip
led_to host trip = record trip { followed = host ∷ trip.followed }

-- The target that CheckRedirect validates.
abbrev pub redirect_target : String → ProbeTarget
redirect_target host = record { address = host; port = ℤ.pos 0; path = ""; host = ""; sni = "" }

-- A connection that is nil without an error counts as a failure.
abbrev pub is_connected {ℓ} : {Conn : Type ℓ} → Result (Option Conn) → Bool
is_connected (ok (some conn)) = Bool.true
is_connected _ = Bool.false

-- What CheckRedirect says: take the redirect, return its response, or fail.
pub data Verdict : Type 0 where
  take_it use_last fail : Verdict

module _ {Conn : Type 0} (net : Net Conn) (policy : ProbeNetworkPolicy) (follow : Bool) where
  -- CheckRedirect.
  unfoldable pub check_redirect : ℕ → String → Verdict
  check_redirect now host =
      if not follow
      then use_last
      else elim (validate_target net now (redirect_target host) policy) [
        | err e ↦ fail
        | ok _ ↦ take_it
      ]

  -- client.Do, from a moment on; each call of a hook has a moment of its own.
  unfoldable pub run_session : ℕ → Session → Trip
  run_session now (ends response) = at_end response
  run_session now (dials address connected failed) =
      let conn = dial_allowed_context net now address policy in
      let after_connection = run_session (now + 1) connected in
      let after_failure = run_session (now + 1) failed in
      dialed conn.tried (if is_connected conn.result then after_connection else after_failure)
  run_session now (redirects host response next) =
      let rest = run_session (now + 1) next in
      elim (check_redirect now host) [
        | take_it ↦ led_to host rest
        | use_last ↦ at_end (some response)
        | fail ↦ at_end none
      ]

-- ===== src/Probe/Executor/Reach.antt =====
-- Where the executors of probes connect to.
use foip_operator.Prelude.Lists.{All-append}
use foip_operator.Prelude.{
  ℕ, ◌+◌, String, Bool, true, Bool-cases, List, [], All, ◌≡◌, ◌≢◌, refl, ◌⊎◌, inl, inr, str_eq,
}
use foip_operator.Api.Types.{ProbeNetworkPolicy, ProbeTarget}
use foip_operator.Controller.Env.{ok, Result-cases}
use foip_operator.Probe.Policy.{
  Address, Net, dial_allowed_context, validate_target, target_hostname, allowed_target_ips,
}
use foip_operator.Probe.Policy.Allowed.{
  Permitted, Passes, dial_allowed_context-Permitted, allowed_target_ips-Passes,
}
use foip_operator.Probe.Session.{
  Session, dials, redirects, ends, Trip, take_it, use_last, fail, check_redirect, run_session,
  redirect_target, is_connected,
}

module _ {Conn : Type 0} (net : Net Conn) (policy : ProbeNetworkPolicy) (follow : Bool) where
  -- The policy permits every address that a host resolves to, and there is one.
  pub record Reachable (now : ℕ) (address : String) : Type 0 where
    pub host : String
    pub ips : List Address
    pub named : target_hostname net address ≡ ok host
    pub passes : Passes net now host policy ips
    pub nonempty : ips ≢ []

  -- A redirect to the host is taken.
  pub record Taken (host : String) : Type 0 where
    pub follows : follow ≡ true
    pub moment : ℕ
    pub reachable : Reachable moment host

  pub validate_target-Reachable :
      (now : ℕ) (target : ProbeTarget)
      → validate_target net now target policy ≡ ok tt
      → Reachable now target.address
  unfolding validate_target
  validate_target-Reachable now target h = elim (Bool-cases (str_eq target.address "")) [
    | inl empty ↦ absurd (cc (rw (empty, validate_target) at h))
    | inr given ↦ elim (Result-cases (target_hostname net target.address)) [
      | inl (e, failed) ↦ absurd (cc (rw (given, failed, validate_target) at h))
      | inr (host, named) ↦ elim (Result-cases (allowed_target_ips net now host policy)) [
        | inl (e, failed) ↦ absurd (cc (rw (given, named, failed, validate_target) at h))
        | inr (ips, allowed) ↦ record {
          host = host;
          ips = ips;
          named = named;
          passes = allowed_target_ips-Passes net now host policy ips allowed;
          nonempty = λ e. cc (rw (given, named, allowed, validate_target, e) at h);
        }
      ]
    ]
  ]

  Verdict-cases :
      (now : ℕ) (host : String)
      → (check_redirect net policy follow now host ≡ use_last)
        ⊎ (check_redirect net policy follow now host ≡ fail)
        ⊎ ((check_redirect net policy follow now host ≡ take_it) × Taken host)
  unfolding check_redirect
  Verdict-cases now host = elim (Bool-cases follow) [
    | inr stay ↦ inl (rw (stay, check_redirect) refl)
    | inl go ↦ elim (Result-cases (validate_target net now (redirect_target host) policy)) [
      | inl (e, failed) ↦ inr (inl (rw (go, failed, check_redirect) refl))
      | inr (checked, fine) ↦ inr (
          inr (
            rw (go, fine, check_redirect) refl,
            record {
              follows = go;
              moment = now;
              reachable = validate_target-Reachable now (redirect_target host) fine;
            },
          ))
    ]
  ]

  abbrev pub Guarded : Trip → Type 0
  Guarded trip = All (Permitted net policy) trip.tried × All Taken trip.followed

  pub run_session-Guarded :
      (now : ℕ) (session : Session) → Guarded (run_session net policy follow now session)
  unfolding run_session
  run_session-Guarded now (ends response) = (tt, tt)
  run_session-Guarded now (dials address connected failed) =
      let conn = dial_allowed_context net now address policy in
      let first = dial_allowed_context-Permitted net now address policy in
      elim (Bool-cases (is_connected conn.result)) [
        | inl good ↦
            let (tried, followed) = run_session-Guarded (now + 1) connected in
            rw (good, run_session)
              (All-append (Permitted net policy) conn.tried _ first tried, followed)
        | inr bad ↦
            let (tried, followed) = run_session-Guarded (now + 1) failed in
            rw (bad, run_session)
              (All-append (Permitted net policy) conn.tried _ first tried, followed)
      ]
  run_session-Guarded now (redirects host response next) = elim (Verdict-cases now host) [
    | inl last ↦ rw (last, run_session) (tt, tt)
    | inr (inl failed) ↦ rw (failed, run_session) (tt, tt)
    | inr (inr (taken, lawful)) ↦
        let (tried, followed) = run_session-Guarded (now + 1) next in
        rw (taken, run_session) (tried, (lawful, followed))
  ]

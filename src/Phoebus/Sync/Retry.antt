-- ===== src/Phoebus/Sync/Retry.antt =====
-- How often `execute_command` of phoebus/sync/mod.rs sends a request, and what it reports.
use alarms_actions_synchroni.Prelude.{
  ℕ, zero, suc, ◌+◌, ◌≤◌, ◌<◌, true, false, ◌≡◌, ◌⊎◌, ◌↔◌, refl, arith, List, [], ◌∷◌, ◌++◌, inl,
  inr, Bool-cases, length, length-concat, ap, if◌then◌else◌,
}
use mathlib.Core.List.{append_assoc, append-nil}
use native.Mathlib.Nat.{add-zero}
use alarms_actions_synchroni.Models.Outcomes.{OutboundSyncResult}
use alarms_actions_synchroni.World.{World, Env, Request}
use alarms_actions_synchroni.Phoebus.Sync.{ControlsClient, execute_command}

abbrev pub replicate : {A : Type 0} → ℕ → A → List A
replicate zero a = []
replicate (suc n) a = a ∷ replicate n a

module _ {V D : Type 0} (env : Env V D) (client : ControlsClient) where
  open client use {grpc_alarms_svc_host}

  -- The request is sent so many times, and nothing else changes.
  abbrev pub resent : ℕ → Request → World V → World V
  resent count request w = record w {
    sent = w.sent ++ replicate count (grpc_alarms_svc_host, request);
  }

  -- The result of a command and what it has sent.
  pub record IsRetried (request : Request) (w : World V) (r : OutboundSyncResult × World V)
      : Type 0 where
    pub count : ℕ
    pub at_most_two : count ≤ 2
    pub changed : r.1 ≡ resent count request w
    pub reported : (r.0 ≡ OutboundSyncResult.succeeded) ⊎ (r.0 ≡ OutboundSyncResult.failed)
    pub no_client : env.connects grpc_alarms_svc_host ≡ false → count ≡ 0
    pub second_try :
        env.connects grpc_alarms_svc_host ≡ true
        → (count ≡ 2) ↔ (env.accepts (length w.sent) ≡ false)
    pub success :
        (r.0 ≡ OutboundSyncResult.succeeded)
        ↔ ((attempt : ℕ) × (attempt < count) × (env.accepts (length w.sent + attempt) ≡ true))

  module _ (request : Request) (w : World V) where
    second_success :
        (attempt : ℕ)
        → attempt < 2
        → env.accepts (length w.sent + attempt) ≡ true
        → env.accepts (length w.sent) ≡ false
        → (if env.accepts (length w.sent + 1)
            then OutboundSyncResult.succeeded
            else OutboundSyncResult.failed)
          ≡ OutboundSyncResult.succeeded
    second_success zero h done rejected = cc (rw add-zero at done)
    second_success (suc zero) h done rejected = ground arith
    second_success (suc (suc n)) h done rejected = absurd (omega arith)

    resent-zero : resent 0 request w ≡ w
    resent-zero = rw append-nil

    length-sent : length (w.sent ++ (grpc_alarms_svc_host, request) ∷ []) ≡ length w.sent + 1
    length-sent = length-concat w.sent (grpc_alarms_svc_host, request)

    no_attempt :
        env.connects grpc_alarms_svc_host ≡ false
        → execute_command env client request w ≡ (OutboundSyncResult.failed, resent 0 request w)
    unfolding execute_command
    no_attempt e = ground (arith, resent-zero)

    one_attempt :
        env.connects grpc_alarms_svc_host ≡ true
        → env.accepts (length w.sent) ≡ true
        → execute_command env client request w ≡ (OutboundSyncResult.succeeded, resent 1 request w)
    unfolding execute_command
    one_attempt e f = ground arith

    two_attempts :
        env.connects grpc_alarms_svc_host ≡ true
        → env.accepts (length w.sent) ≡ false
        → execute_command env client request w ≡ (
          (if env.accepts (length w.sent + 1)
              then OutboundSyncResult.succeeded
              else OutboundSyncResult.failed),
          resent 2 request w,
        )
    unfolding execute_command
    two_attempts e f = ground (
      arith,
      length-sent,
      append_assoc w.sent ((grpc_alarms_svc_host, request) ∷ [])
          ((grpc_alarms_svc_host, request) ∷ []),
    )

    -- Without a client nothing is sent. With one the request is sent, and sent once more exactly
    -- when the service rejects it; the command succeeds exactly when one of the attempts does, and
    -- fails otherwise. Nothing but the log of requests changes.
    pub execute_command-IsRetried : IsRetried request w (execute_command env client request w)
    execute_command-IsRetried = elim (Bool-cases (env.connects grpc_alarms_svc_host)) [
      | inr off ↦ rw (no_attempt off) (record {
        count = 0;
        at_most_two = omega arith;
        changed = refl;
        reported = inr refl;
        no_client = λ _. refl;
        second_try = λ on. cc;
        success = (λ e. cc, λ (attempt, h, ok). absurd (omega arith));
      })
      | inl on ↦ elim (Bool-cases (env.accepts (length w.sent))) [
        | inl accepted ↦ rw (one_attempt on accepted) (record {
          count = 1;
          at_most_two = omega arith;
          changed = refl;
          reported = inl refl;
          no_client = λ off. cc;
          second_try = λ _. (λ e. absurd (omega arith), λ e. cc);
          success = (λ _. (0, omega arith, rw add-zero accepted), λ _. refl);
        })
        | inr rejected ↦ rw (two_attempts on rejected) (record {
          count = 2;
          at_most_two = omega arith;
          changed = refl;
          reported = ground arith;
          no_client = λ off. cc;
          second_try = λ _. (λ _. rejected, λ _. refl);
          success = (
            λ e. (1, omega arith, ground arith),
            λ (attempt, h, done). second_success attempt h done rejected,
          );
        })
      ]
    ]

    module _ {r : OutboundSyncResult × World V} (retried : IsRetried request w r) where
      pub alarm_states-command : r.1.alarm_states ≡ w.alarm_states
      alarm_states-command = ap (λ (u : World V). u.alarm_states) retried.changed

      pub metadata_scope-command : r.1.metadata_scope ≡ w.metadata_scope
      metadata_scope-command = ap (λ (u : World V). u.metadata_scope) retried.changed

      pub published-command : r.1.published ≡ w.published
      published-command = ap (λ (u : World V). u.published) retried.changed

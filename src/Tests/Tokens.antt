-- ===== src/Tests/Tokens.antt =====
-- Run tokens at concrete inputs.
use intelligent_agent_platfo.Base.{◌≡◌, ◌≢◌, refl, inr, none, some, List, [], ◌∷◌, arith}
use intelligent_agent_platfo.Effects.{ok}
use intelligent_agent_platfo.Database.{of_status, RunStatus, TokenId}
use intelligent_agent_platfo.Runtime.RunTokens.{
  RunnerAction, RunTokenClaims, TokenSubject, Signer, RunTokenService, IssuedRunToken, issue,
  verify, revoke, expiry,
}
use intelligent_agent_platfo.Runtime.RunTokens.Issue.{verify-issue}
use intelligent_agent_platfo.Runtime.RunTokens.Revoke.{verify-revoke, verify-revoke_others}
use intelligent_agent_platfo.Tests.Data.{base}

abbrev service : RunTokenService
service = record { issuer = 1; audience = 2; grace = 30 }

abbrev subject : TokenSubject
subject = record {
  run_id = 11;
  unit_id = 1;
  project_id = 2;
  snapshot_id = 40;
  digest = 41;
  expires_at = none;
}

-- A token that is its own claims.
abbrev signer : Signer RunTokenClaims
signer = record { signed = λ c. c; opened = some; opened-signed = λ c. refl }

abbrev permitted : List RunnerAction
permitted = RunnerAction.event_append ∷ RunnerAction.result_complete ∷ []

abbrev issued_claims : RunTokenClaims
issued_claims = record {
  iss = 1;
  aud = 2;
  jti = TokenId.uuid 99;
  run_id = 11;
  unit_id = 1;
  project_id = 2;
  snapshot_id = 40;
  snapshot_digest = 41;
  actions = permitted;
  iat = 100;
  nbf = 100;
  exp = 530;
}

abbrev token : IssuedRunToken RunTokenClaims
token = record { value = issued_claims; claims = issued_claims }

issued : issue signer service subject permitted 500 100 99 ≡ ok token
unfolding issue
issued = refl

verify-issue_example :
    verify signer service token.value 11 RunnerAction.result_complete 200 base ≡ ok issued_claims
verify-issue_example =
    verify-issue signer service subject permitted 500 100 99 200 token RunnerAction.result_complete
      base issued refl (omega arith) (unfold expiry in omega arith) refl

verify-revoke_example :
    (verify signer service issued_claims 11 RunnerAction.event_append 120
        (revoke 11 (of_status RunStatus.failed) 110 base).1
      ≢ ok issued_claims)
    × (verify signer service issued_claims 11 RunnerAction.event_append 120
          (revoke 10
            (of_status RunStatus.failed)
            115
            (revoke 11 (of_status RunStatus.failed) 110 base).1).1
        ≢ ok issued_claims)
verify-revoke_example =
    verify-revoke signer service issued_claims issued_claims (of_status RunStatus.failed)
      (of_status RunStatus.failed) 110 10 115 11 RunnerAction.event_append 120 base issued_claims
      refl (omega arith)

verify-revoke_others_example :
    verify signer service issued_claims 11 RunnerAction.event_append 120
      (revoke 11 (of_status RunStatus.waiting_approval) 90 base).1
    ≡ verify signer service issued_claims 11 RunnerAction.event_append 120 base
verify-revoke_others_example =
    verify-revoke_others signer service issued_claims issued_claims 99 11
      (of_status RunStatus.waiting_approval) 90 11 RunnerAction.event_append 120 base refl refl
      (inr (omega arith))

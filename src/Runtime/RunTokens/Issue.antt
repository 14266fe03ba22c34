-- ===== src/Runtime/RunTokens/Issue.antt =====
-- `RunTokenService.issue`, then `verify`.
use intelligent_agent_platfo.Base.{ℕ, ◌≡◌, ◌≤◌, ◌<◌, true, false, some, List, arith, any}
use intelligent_agent_platfo.Effects.{ok}
use intelligent_agent_platfo.Database.{Store}
use intelligent_agent_platfo.Runtime.RunTokens.{
  RunnerAction, has_action, TokenSubject, Signer, RunTokenService, IssuedRunToken, expiry, issue,
  revokes, check_claims, verify,
}

-- What a token that `issue` returned says.
pub issue_claims :
    {Token : Type 0} (signer : Signer Token) (service : RunTokenService) (subject : TokenSubject)
    (actions : List RunnerAction) (deadline now fresh : ℕ) (token : IssuedRunToken Token)
    → issue signer service subject actions deadline now fresh ≡ ok token
    → (signer.opened token.value ≡ some token.claims)
      × (token.claims.iss ≡ service.issuer)
      × (token.claims.aud ≡ service.audience)
      × (token.claims.run_id ≡ subject.run_id)
      × (token.claims.actions ≡ actions)
      × (token.claims.iat ≡ now)
      × (token.claims.nbf ≡ now)
      × (token.claims.exp ≡ expiry service subject deadline)
unfolding issue
issue_claims signer service subject actions deadline now fresh token h =
    ground (arith, signer.opened-signed token.claims)

-- A token that was issued is accepted for its run and each of its actions, from the moment of
-- issue until its expiry, while no revocation fits it; what `verify` returns are its claims.
pub verify-issue :
    {Token : Type 0} (signer : Signer Token) (service : RunTokenService) (subject : TokenSubject)
    (actions : List RunnerAction) (deadline now fresh later : ℕ) (token : IssuedRunToken Token)
    (required : RunnerAction) (s : Store)
    → issue signer service subject actions deadline now fresh ≡ ok token
    → has_action required actions ≡ true
    → now ≤ later
    → later < expiry service subject deadline
    → any (revokes token.claims) s.revocations ≡ false
    → verify signer service token.value subject.run_id required later s ≡ ok token.claims
unfolding verify check_claims
verify-issue signer service subject actions deadline now fresh later token required s h act le lt
      free =
    let c = issue_claims signer service subject actions deadline now fresh token h in ground arith

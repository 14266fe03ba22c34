-- ===== src/Runtime/RunTokens/Revoke.antt =====
-- Revocation of the tokens of a run.
use intelligent_agent_platfo.Base.{
  ℕ, ◌≡◌, ◌≢◌, ◌≤◌, ◌<◌, refl, true, some, List, [], ◌∷◌, arith, any, ◌⊎◌,
}
use intelligent_agent_platfo.Effects.{ok}
use intelligent_agent_platfo.Database.{Store, Reason, Revocation, TokenId}
use intelligent_agent_platfo.Runtime.RunTokens.{
  RunnerAction, RunTokenClaims, Signer, RunTokenService, revokes, check_claims, verify, revoke_rows,
  revoke,
}

-- After a revocation, a token of the run that was issued no later fits a row.
revoke_rows_fits :
    (claims : RunTokenClaims) (reason : Reason) (now : ℕ) (rs : List Revocation)
    → claims.iat ≤ now
    → any (revokes claims) (revoke_rows claims.run_id reason now rs) ≡ true
unfolding revoke_rows
revoke_rows_fits claims reason now [] le = ground arith
revoke_rows_fits claims reason now (r ∷ rs) le =
    ground (arith, revoke_rows_fits claims reason now rs)

-- What a row fits, it still fits after a further revocation of any run.
revoke_rows_keeps :
    (claims : RunTokenClaims) (run_id : ℕ) (reason : Reason) (now : ℕ) (rs : List Revocation)
    → any (revokes claims) rs ≡ true
    → any (revokes claims) (revoke_rows run_id reason now rs) ≡ true
unfolding revoke_rows
revoke_rows_keeps claims run_id reason now [] h = cc
revoke_rows_keeps claims run_id reason now (r ∷ rs) h =
    ground (arith, revoke_rows_keeps claims run_id reason now rs)

-- A claim that some row fits is refused, whatever else holds of it.
check_claims_revoked :
    (service : RunTokenService) (claims : RunTokenClaims) (run_id : ℕ) (required : RunnerAction)
    (now : ℕ) (rs : List Revocation) (found : RunTokenClaims)
    → any (revokes claims) rs ≡ true
    → check_claims service claims run_id required now rs ≢ ok found
unfolding check_claims
check_claims_revoked service claims run_id required now rs found h e = ground arith

-- Once the tokens of a run are revoked, no token of the run that was issued up to that moment is
-- accepted, for any action, at any time; and no later revocation, of this or another run, brings
-- one back.
pub verify-revoke :
    {Token : Type 0} (signer : Signer Token) (service : RunTokenService) (token : Token)
    (claims : RunTokenClaims) (reason reason' : Reason) (revoked_at : ℕ) (other_run other_time : ℕ)
    (run_id : ℕ) (required : RunnerAction) (now : ℕ) (s : Store) (found : RunTokenClaims)
    → signer.opened token ≡ some claims
    → claims.iat ≤ revoked_at
    → let s' = (revoke claims.run_id reason revoked_at s).1 in
      (verify signer service token run_id required now s' ≢ ok found)
      × (verify signer service token run_id required now (revoke other_run reason' other_time s').1
          ≢ ok found)
unfolding verify revoke
verify-revoke signer service token claims reason reason' revoked_at other_run other_time run_id
      required now s found opens le =
    let rows = revoke_rows claims.run_id reason revoked_at s.revocations in
    let fits = revoke_rows_fits claims reason revoked_at s.revocations le in
    let kept = revoke_rows_keeps claims other_run reason' other_time rows fits in
    (
      rw opens (check_claims_revoked service claims run_id required now rows found fits),
      rw opens (
          check_claims_revoked service claims run_id required now
            (revoke_rows other_run reason' other_time rows) found kept),
    )

-- A revocation leaves the tokens of other runs, and those of the run that are issued later, as
-- they were.
revoke_rows_spares :
    (claims : RunTokenClaims) (run_id : ℕ) (reason : Reason) (now : ℕ) (rs : List Revocation)
    → (j : ℕ) → claims.jti ≡ TokenId.uuid j
    → (claims.run_id ≢ run_id) ⊎ (now < claims.iat)
    → any (revokes claims) (revoke_rows run_id reason now rs) ≡ any (revokes claims) rs
unfolding revoke_rows
revoke_rows_spares claims run_id reason now [] j id apart = ground arith
revoke_rows_spares claims run_id reason now (r ∷ rs) j id apart =
    ground (arith, revoke_rows_spares claims run_id reason now rs j)

-- A revocation changes nothing for the tokens of another run, nor for a token of the run that was
-- issued after it: verifying such a token gives the same result as before.
pub verify-revoke_others :
    {Token : Type 0} (signer : Signer Token) (service : RunTokenService) (token : Token)
    (claims : RunTokenClaims) (j : ℕ) (revoked_run : ℕ) (reason : Reason) (revoked_at run_id : ℕ)
    (required : RunnerAction) (now : ℕ) (s : Store)
    → signer.opened token ≡ some claims
    → claims.jti ≡ TokenId.uuid j
    → (claims.run_id ≢ revoked_run) ⊎ (revoked_at < claims.iat)
    → verify signer service token run_id required now (revoke revoked_run reason revoked_at s).1
      ≡ verify signer service token run_id required now s
unfolding verify revoke check_claims
verify-revoke_others signer service token claims j revoked_run reason revoked_at run_id required now
      s opens id apart =
    rw (opens, revoke_rows_spares claims revoked_run reason revoked_at s.revocations j id apart)
      refl

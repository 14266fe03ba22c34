-- ===== src/Runtime/RunTokens.antt =====
-- backend/app/runtime/run_tokens.py: the tokens with which a sandbox calls the runner gateway.
-- Base64, JSON and HMAC-SHA256 are the parameter `Signer`; a token's times are those of the
-- claims, in microseconds. `actions` is a set in the source: its order is not modelled, and a
-- reason is taken to be no longer than 120 characters.
pub mod Issue
pub mod Revoke
use intelligent_agent_platfo.Base.{
  ℕ, ◌+◌, ◌≡◌, min, max, Bool, true, false, ◌&&◌, ◌||◌, not, Option, none, some, List, [], ◌∷◌, any,
  all, filterb, find, ltb, leb, ◌==◌, if◌then◌else◌, map,
}
use intelligent_agent_platfo.Effects.{Result, ok, err, ◌>>=◌, ◌>>◌, gets, modify}
use intelligent_agent_platfo.Database.{
  Text, Time, Store, TokenId, uuid, of_run, Revocation, Reason, Exception, value_error,
  token_invalid, token_forbidden, token_not_found, Db,
}

-- The members of `_ALLOWED_ACTIONS`, and any other text.
pub data RunnerAction : Type 0 where
  snapshot_read model_invoke tool_invoke checkpoint_read checkpoint_write : RunnerAction
  event_append artifact_create result_complete : RunnerAction
  skill_resource_read skill_script_execute : RunnerAction
  unknown : Text → RunnerAction

abbrev pub is_allowed : RunnerAction → Bool
is_allowed (unknown _) = false
is_allowed _ = true

-- A number for each text, to compare two.
abbrev pub action_code : RunnerAction → ℕ
action_code snapshot_read = 0
action_code model_invoke = 1
action_code tool_invoke = 2
action_code checkpoint_read = 3
action_code checkpoint_write = 4
action_code event_append = 5
action_code artifact_create = 6
action_code result_complete = 7
action_code skill_resource_read = 8
action_code skill_script_execute = 9
action_code (unknown t) = 10 + t

abbrev pub has_action : RunnerAction → List RunnerAction → Bool
has_action a = any (λ b. action_code a == action_code b)

pub record RunTokenClaims : Type 0 where
  pub iss : Text
  pub aud : Text
  pub jti : TokenId
  pub run_id : Text
  pub unit_id : Text
  pub project_id : Text
  pub snapshot_id : Text
  pub snapshot_digest : Text
  pub actions : List RunnerAction
  pub iat : Time
  pub nbf : Time
  pub exp : Time

-- What tokens need of `StoredExecutionSnapshot`.
pub record TokenSubject : Type 0 where
  pub run_id : Text
  pub unit_id : Text
  pub project_id : Text
  pub snapshot_id : Text
  pub digest : Text
  pub expires_at : Option Time

-- The encoding and the signature: a token that was signed opens to the claims that it was made
-- of. `opened` is `none` where decoding or `verifier.verify` raises.
pub record Signer (Token : Type 0) : Type 0 where
  pub signed : RunTokenClaims → Token
  pub opened : Token → Option RunTokenClaims
  pub opened-signed : (c : RunTokenClaims) → opened (signed c) ≡ some c

pub record RunTokenService : Type 0 where
  pub issuer : Text
  pub audience : Text
  pub grace : Time

pub record IssuedRunToken (Token : Type 0) : Type 0 where
  pub value : Token
  pub claims : RunTokenClaims

abbrev pub earlier : Time → Option Time → Time
earlier t none = t
earlier t (some u) = min t u

unfoldable pub expiry : RunTokenService → TokenSubject → Time → Time
expiry service snapshot deadline = earlier (deadline + service.grace) snapshot.expires_at

abbrev is_empty : List RunnerAction → Bool
is_empty [] = true
is_empty (_ ∷ _) = false

-- `issue`, with the reading of the clock and the fresh UUID.
unfoldable pub issue :
    {Token : Type 0}
    → Signer Token
    → RunTokenService
    → TokenSubject
    → List RunnerAction
    → Time
    → Time
    → Text
    → Result Exception (IssuedRunToken Token)
unfolding expiry
issue signer service snapshot actions deadline now fresh =
    let exp = expiry service snapshot deadline in
    let claims : RunTokenClaims = record {
      iss = service.issuer;
      aud = service.audience;
      jti = uuid fresh;
      run_id = snapshot.run_id;
      unit_id = snapshot.unit_id;
      project_id = snapshot.project_id;
      snapshot_id = snapshot.snapshot_id;
      snapshot_digest = snapshot.digest;
      actions = actions;
      iat = now;
      nbf = now;
      exp = exp;
    } in
    if leb exp now
    then err value_error
    else if is_empty actions || not (all is_allowed actions)
    then err value_error
    else ok (record { value = signer.signed claims; claims = claims })

abbrev pub same_token : TokenId → TokenId → Bool
same_token (uuid a) (uuid b) = a == b
same_token (of_run a) (of_run b) = a == b
same_token _ _ = false

-- The rows that the query of `verify` selects and on which its loop raises.
abbrev pub revokes : RunTokenClaims → Revocation → Bool
revokes claims r =
    (same_token r.jti claims.jti || r.run_id == claims.run_id)
    && (same_token r.jti claims.jti || leb claims.iat r.revoked_at)

unfoldable pub check_claims :
    RunTokenService
    → RunTokenClaims
    → Text
    → RunnerAction
    → Time
    → List Revocation
    → Result Exception RunTokenClaims
check_claims service claims run_id required now revocations =
    if not (claims.iss == service.issuer) || not (claims.aud == service.audience)
    then err token_invalid
    else if ltb now claims.nbf
    then err token_invalid
    else if leb claims.exp now
    then err token_invalid
    else if not (claims.run_id == run_id)
    then err token_not_found
    else if not (has_action required claims.actions)
    then err token_forbidden
    else if any (revokes claims) revocations
    then err token_invalid
    else ok claims

abbrev checked :
    Option RunTokenClaims
    → (RunTokenClaims → Result Exception RunTokenClaims)
    → Result Exception RunTokenClaims
checked none k = err token_invalid
checked (some claims) k = k claims

unfoldable pub verify :
    {Token : Type 0}
    → Signer Token
    → RunTokenService
    → Token
    → Text
    → RunnerAction
    → Time
    → Store
    → Result Exception RunTokenClaims
unfolding check_claims
verify signer service token run_id required now s =
    checked (signer.opened token)
      (λ claims. check_claims service claims run_id required now s.revocations)

-- `revoke`, on the table of revocations: the first row of the run is moved forward, or a row is
-- added.
unfoldable pub revoke_rows : Text → Reason → Time → List Revocation → List Revocation
revoke_rows run_id reason now [] =
    record { jti = of_run run_id; run_id = run_id; revoked_at = now; reason = reason } ∷ []
revoke_rows run_id reason now (r ∷ rs) =
    let rest = revoke_rows run_id reason now rs in
    if r.run_id == run_id
    then record r { revoked_at = max r.revoked_at now; reason = reason } ∷ rs
    else r ∷ rest

unfoldable pub revoke : Text → Reason → Time → Db (Unit {0})
unfolding revoke_rows
revoke run_id reason now =
    modify (λ s. record s { revocations = revoke_rows run_id reason now s.revocations })

-- ===== src/Ownership/Examples.antt =====
-- Scopes and handoffs at concrete values.
use creatidy_kernel.Domain.Facts as Facts
use creatidy_kernel.Base.{String_discrete, String, ◌≡◌, refl, true, false, [], ◌∷◌, ok}
use creatidy_kernel.Domain.Facts.{attempt_digest}
use creatidy_kernel.Domain.Samples.{written, code, sample_attempt}
use creatidy_kernel.Ownership.Texts.{is_same_char, starts_with, slashed, is_within}
use creatidy_kernel.Ownership.Scopes.{
  HandoffMode-discrete, ResourceScope-discrete, scopes_discrete, conflicts, check_proof,
  within-conflicts, HandoffMode, ResourceScope, WorkClaim, HandoffProof,
}

abbrev at_key : String → ResourceScope
at_key key = record { kind = "workspace"; key = key }

src_within : is_within "/work/src" "/work" ≡ true
unfolding is_within starts_with slashed is_same_char String_discrete
src_within = refl

src_itself : is_within "/work/src" "/work/src" ≡ true
unfolding is_within starts_with slashed is_same_char String_discrete
src_itself = refl

-- A name that another one begins with is no tree above it.
siblings : conflicts (at_key "/work") (at_key "/workshop") ≡ false
unfolding conflicts starts_with slashed is_same_char String_discrete
siblings = refl

within-conflicts_example : conflicts (at_key "/work") (at_key "/work/src") ≡ true
within-conflicts_example =
    within-conflicts (at_key "/work") (at_key "/work/src") "/work/src" refl refl src_within
      src_itself

abbrev sample_claim : WorkClaim
sample_claim = record {
  command_key = "k";
  claimant = "agent";
  attempt = sample_attempt;
  generation = 1;
  mode = HandoffMode.managed;
  profile = "profile";
  resources = at_key "/work" ∷ [];
  workspace_subject = "subject";
  expires_at = 9;
}

-- The same claim, made again by another command.
abbrev renewed_claim : WorkClaim
renewed_claim = record sample_claim { command_key = "k2" }

abbrev sample_proof : HandoffProof
sample_proof = record {
  source = "host";
  profile = "profile";
  mode = HandoffMode.managed;
  attempt_digest = Facts.attempt_digest written sample_attempt;
  generation = 1;
  resources = at_key "/work" ∷ [];
  stage = "start";
  reference = "receipt";
}

sample_claim-accepted : check_proof written sample_proof sample_claim "start" ≡ ok tt
unfolding code check_proof HandoffMode-discrete scopes_discrete ResourceScope-discrete
sample_claim-accepted = refl

renewed_claim-accepted : check_proof written sample_proof renewed_claim "start" ≡ ok tt
unfolding code check_proof HandoffMode-discrete scopes_discrete ResourceScope-discrete
renewed_claim-accepted = refl

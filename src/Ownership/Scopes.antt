-- ===== src/Ownership/Scopes.antt =====
-- `ResourceScope`, `WorkClaim` and `HandoffProof` of `core/ownership.py`. The checks of Python types
-- are left out.
use creatidy_kernel.Domain.Facts as Facts
use creatidy_kernel.Base.{
  String_discrete, is_blank, ℕ, String, ◌≡◌, Bool, true, false, ◌&&◌, ◌||◌, not, List, [], ◌∷◌,
  arith, if◌then◌else◌, leb, ◌==◌, ◌!=◌, nat_eq, string_eq, names_eq, optional_eq, Eq, is_empty,
  any, contains, raise_if, ◌>>◌, ownership_conflict, Result, ok,
}
use creatidy_kernel.Domain.Checks.{Digest, json_eq}
use creatidy_kernel.Domain.Values.{
  program_status_eq, work_unit_status_eq, attempt_status_eq, domain_action_eq, policy_reference_eq,
  bindings_eq, subjects_eq,
}
use creatidy_kernel.Domain.Spec.{program_spec_eq}
use creatidy_kernel.Domain.Facts.{states_eq, AttemptSpec}
use creatidy_kernel.Ownership.Texts.{starts_with, slashed, is_within, split_first, nested}

pub data HandoffMode : Type 0 where
  pull managed : HandoffMode

unfoldable pub HandoffMode-discrete : Discrete HandoffMode
HandoffMode-discrete = hlevel

instance abbrev pub handoff_mode_eq : Eq HandoffMode
handoff_mode_eq = record { decision = HandoffMode-discrete }

pub record ResourceScope : Type 0 where
  pub kind : String
  pub key : String

unfoldable pub ResourceScope-discrete : Discrete ResourceScope
ResourceScope-discrete = hlevel String_discrete

unfoldable pub scopes_discrete : Discrete (List ResourceScope)
scopes_discrete = hlevel ResourceScope-discrete

instance abbrev pub scopes_eq : Eq (List ResourceScope)
scopes_eq = record { decision = scopes_discrete }

-- `ResourceScope.__post_init__`
unfoldable pub resource_scope : String → String → Result ResourceScope
resource_scope kind key = do
  raise_if (not (contains ("workspace" ∷ "session" ∷ "effect" ∷ []) kind) || is_blank key)
      ownership_conflict
  raise_if
      (kind == "workspace"
        && (not (starts_with key "/") || any (contains ("." ∷ ".." ∷ "" ∷ [])) (split_first key).1))
      ownership_conflict
  ok (record { kind = kind; key = key })

-- `ResourceScope.conflicts`
unfoldable pub conflicts : ResourceScope → ResourceScope → Bool
conflicts a b =
    if a.kind != b.kind
    then false
    else if a.kind == "workspace"
    then a.key == b.key || starts_with a.key (slashed b.key) || starts_with b.key (slashed a.key)
    else a.key == b.key

pub record WorkClaim : Type 0 where
  pub command_key : String
  pub claimant : String
  pub attempt : AttemptSpec
  pub generation : ℕ
  pub mode : HandoffMode
  pub profile : String
  pub resources : List ResourceScope
  pub workspace_subject : String
  pub expires_at : ℕ

-- `WorkClaim.__post_init__`
unfoldable pub work_claim : WorkClaim → Result WorkClaim
work_claim c = do
  raise_if
      (leb c.generation 0
        || leb c.expires_at 0
        || is_empty c.resources
        || any is_blank (c.command_key ∷ c.claimant ∷ c.profile ∷ c.workspace_subject ∷ []))
      ownership_conflict
  ok c

pub record HandoffProof : Type 0 where
  pub source : String
  pub profile : String
  pub mode : HandoffMode
  pub attempt_digest : String
  pub generation : ℕ
  pub resources : List ResourceScope
  pub stage : String
  pub reference : String

-- `HandoffProof.check`
unfoldable pub check_proof : Digest → HandoffProof → WorkClaim → String → Result (Unit {0})
check_proof digest p c stage = do
  raise_if
      (is_blank p.source
        || is_blank p.reference
        || not (contains ("start" ∷ "complete" ∷ "stop" ∷ []) stage)
        || p.profile != c.profile
        || p.mode != c.mode
        || p.attempt_digest != Facts.attempt_digest digest c.attempt
        || p.generation != c.generation
        || p.resources != c.resources
        || p.stage != stage)
      ownership_conflict
  raise_if (p.mode == HandoffMode.pull && stage == "start") ownership_conflict

-- Two scopes conflict in either order.
pub conflicts_comm : (a b : ResourceScope) → conflicts a b ≡ conflicts b a
unfolding conflicts
conflicts_comm a b = ground arith

-- Two workspace scopes conflict wherever a path is in both trees, that is, is the key of the scope
-- or begins with that key and a slash: scopes that do not conflict share no path.
pub within-conflicts :
    (a b : ResourceScope) (path : String)
    → a.kind ≡ "workspace"
    → b.kind ≡ "workspace"
    → is_within path a.key ≡ true
    → is_within path b.key ≡ true
    → conflicts a b ≡ true
unfolding conflicts is_within String_discrete
within-conflicts a b path k l h m = ground (arith, k, l, nested path a.key b.key h m)

-- ===== src/Delivery/Preflight.antt =====
-- `_resolve_budget`, `base_is_wellformed`, `_base_argv` and `_preflight` of delivery.py: every check
-- that is made before anything is created.
pub mod Refuses
use satyrn_engine.Prelude.{
  ◌⊎◌, ◌==◌, ℕ, Bool, true, false, Option, none, some, or_else, List, [], ◌∷◌, ◌++◌, if◌then◌else◌,
  not, ◌&&◌, ◌||◌, inl, inr, is_empty,
}
use satyrn_engine.Prelude.Int.{is_zero}
use satyrn_engine.Prelude.Text.{
  Text, Bytes, txt, eq_text, strip, has, is_blank, decode_ascii, encodable,
}
use satyrn_engine.Budget.{Budget}
use satyrn_engine.Contract.Fields.{Contract}
use satyrn_engine.Delivery.Codes.{DeliveryCode}
use satyrn_engine.Delivery.Host.{Host, Environment}
use satyrn_engine.Delivery.Git.{toplevel, rev_parse_commit, status, check_ref_format}
use satyrn_engine.Delivery.Receipt.{DeliveryContext, DeliveryReceipt, receipt, plain}
use satyrn_engine.Delivery.Exec.{Exec, pure, leave, raise, gets, return_if, ◌>>=◌, ◌>>◌}
use satyrn_engine.Delivery.Calls.{git, git_message, ref_exists, sanitized_environment}

-- `_resolve_budget`
unfoldable pub resolve_budget : Option Contract → Option ℕ → Option ℕ → Option ℕ → Budget
resolve_budget none turn_limit deadline_seconds token_limit = record {
  turn_limit = turn_limit;
  deadline_seconds = deadline_seconds;
  token_limit = token_limit;
}
resolve_budget (some contract) turn_limit deadline_seconds token_limit = record {
  turn_limit = or_else turn_limit contract.turn_budget;
  deadline_seconds = or_else deadline_seconds contract.deadline_seconds;
  token_limit = or_else token_limit contract.token_budget;
}

unfoldable pub base_is_wellformed : Text → Bool
base_is_wellformed base = not (is_blank base)

-- `base or 'HEAD'` of `_base_argv`
abbrev pub base_rev : Option Text → Text
base_rev none = txt "HEAD"
base_rev (some []) = txt "HEAD"
base_rev (some (c ∷ t)) = c ∷ t

abbrev ill_formed : Option Text → Bool
ill_formed none = false
ill_formed (some base) = not (base_is_wellformed base)

-- `stdout.removesuffix(b"\n")`
chomp : Bytes → Bytes
chomp [] = []
chomp (c ∷ []) = if c == 10 then [] else c ∷ []
chomp (c ∷ d ∷ b) = c ∷ chomp (d ∷ b)

unfoldable pub candidate_ref_of : Text → Text
candidate_ref_of contract_id = txt "refs/satyrn/candidates/" ++ (contract_id ++ txt "/head")

-- What `_preflight` is called with.
pub record Request : Type 0 where
  pub repository : Text
  pub contract_id : Text
  pub base : Option Text
  pub test_command : List Text
  pub budget : Budget
  pub contract : Option Contract
  pub size_refusal : Option Text

unfoldable pub refusal : Request → DeliveryCode → Text → Option Text → Option Text → DeliveryReceipt
refusal q code message base_commit candidate_ref =
    receipt q.repository code message
      (record {
        contract_id = some q.contract_id;
        base_commit = base_commit;
        candidate_ref = candidate_ref;
        size_refusal = q.size_refusal;
      })
      (record plain { budget = some q.budget })

module _ (host : Host) (q : Request) where
  open host use {samefile, fsdecode, repr}
  open q use {repository, contract_id}

  usable_environment : Environment ⊎ Text → Exec host Environment
  usable_environment (inl environment) = pure environment
  usable_environment (inr message) = leave (refusal q DeliveryCode.git_failed message none none)

  ascii_or_raise : Option Text → Exec host Text
  ascii_or_raise none = raise
  ascii_or_raise (some t) = pure t

  ascii : Bytes → Exec host Text
  unfolding ascii_or_raise
  ascii b = ascii_or_raise (decode_ascii b)

  -- The repository's root, which the request has to name.
  find_root : Environment → Exec host Text
  unfolding chomp
  find_root environment = do
    root_result ← git host repository environment toplevel none
    return_if (not (is_zero root_result.returncode)) (
        refusal q DeliveryCode.repo_not_git
          (git_message host (txt "cannot resolve repository root") root_result) none none)
    let root = fsdecode (chomp root_result.stdout)
    is_root ← gets (samefile repository root)
    return_if (not is_root) (
        refusal q DeliveryCode.repo_not_git (txt "repo must name the Git working-tree root") none
          none)
    pure root

  head_message : Option Text → Text
  head_message none = txt "repository has no commit at HEAD"
  head_message (some base) = txt "cannot resolve base " ++ repr base

  blank_repr : Option Text → Text
  blank_repr none = []
  blank_repr (some base) = repr base

  -- The commit to deliver from.
  find_base : Text → Environment → Exec host Text
  unfolding ascii head_message blank_repr
  find_base root environment = do
    return_if (ill_formed q.base)
        (refusal q DeliveryCode.repo_not_git (txt "base is blank: " ++ blank_repr q.base) none none)
    head_result ← git host root environment (rev_parse_commit (base_rev q.base)) none
    return_if (not (is_zero head_result.returncode)) (
        refusal q DeliveryCode.repo_not_git (git_message host (head_message q.base) head_result)
          none none)
    ascii (strip head_result.stdout)

  -- The working tree has to be clean.
  require_clean : Text → Environment → Text → Exec host (Unit {0})
  require_clean root environment base_commit = do
    status_result ← git host root environment status none
    return_if (not (is_zero status_result.returncode)) (
        refusal q DeliveryCode.git_failed
          (git_message host (txt "cannot inspect repository status") status_result)
          (some base_commit) none)
    return_if (not (is_empty status_result.stdout)) (
        refusal q DeliveryCode.repo_dirty (txt "repository has tracked or untracked changes")
          (some base_commit) none)

  -- The id has to be one component of a valid ref.
  require_ref_format : Text → Environment → Text → Exec host (Unit {0})
  require_ref_format root environment base_commit = do
    return_if (has 47 contract_id || not (encodable contract_id) || has 0 contract_id) (
        refusal q DeliveryCode.invalid_candidate_id
          (txt "contract id must be exactly one Git ref component") (some base_commit) none)
    ref_format ← git host root environment (check_ref_format (candidate_ref_of contract_id)) none
    return_if (not (is_zero ref_format.returncode)) (
        refusal q DeliveryCode.invalid_candidate_id
          (txt "contract id does not form a valid Git ref") (some base_commit) none)

  settle_ref : Text → Option Bool → Exec host (Unit {0})
  settle_ref base_commit none = leave (
      refusal q DeliveryCode.git_failed (txt "cannot inspect candidate ref") (some base_commit)
        (some (candidate_ref_of contract_id)))
  settle_ref base_commit (some existing) = return_if existing (
      refusal q DeliveryCode.candidate_exists (txt "candidate ref already exists")
        (some base_commit) (some (candidate_ref_of contract_id)))

  -- `_preflight`
  unfoldable pub preflight : Exec host DeliveryContext
  unfolding usable_environment find_root find_base require_clean require_ref_format settle_ref
  preflight = do
    environment_result ← sanitized_environment host repository
    environment ← usable_environment environment_result
    root ← find_root environment
    base_commit ← find_base root environment
    require_clean root environment base_commit
    require_ref_format root environment base_commit
    existing ← ref_exists host root environment (candidate_ref_of contract_id)
    settle_ref base_commit existing
    pure (record {
      repository = repository;
      root = root;
      environment = environment;
      contract_id = contract_id;
      base_commit = base_commit;
      candidate_ref = candidate_ref_of contract_id;
      test_command = q.test_command;
      budget = q.budget;
      contract = q.contract;
      size_refusal = q.size_refusal;
    })

-- ===== src/Gate/Preflight.antt =====
-- The preflight before every merge (src/forge/preflight.ts). The forge client is a parameter: for a
-- path it answers with a status and a JSON body, or throws with a message.
pub mod Sound
use nightshift0s.Prelude.{
  is_empty, is_some, ℕ, String, Bool, true, false, not, ◌&&◌, ◌||◌, Option, none, some, List, [],
  ◌∷◌, ◌++◌, ◌==◌, nat_Eq, string_Eq, find, contains, if◌then◌else◌,
}
use nightshift0s.Prelude.Json.{
  Number, natural, Json, null, absent, boolean, number, string, array, object, Items, end, item,
  Fields, bare, field, get, is_text, is_true,
}
use nightshift0s.Prelude.Text.{◌⧺◌, decimal}

-- `typeof v === "object" && v !== null`, which an array passes too.
abbrev pub is_record : Json → Bool
is_record (array items) = true
is_record (object fields) = true
is_record _ = false

pub data Response : Type 0 where
  answered : (status : ℕ) → Json → Response
  request_failed : String → Response

abbrev pub ForgeClient : Type 0
ForgeClient = String → Response

pub record PreflightInput : Type 0 where
  pub owner : String
  pub repo : String
  pub pr_number : ℕ
  pub base_branch : String
  pub head_sha : String
  pub approved_sha : String
  pub trusted_check_app_ids : List ℕ

abbrev pub repo_path : PreflightInput → String
repo_path input = "/repos/" ⧺ input.owner ⧺ "/" ⧺ input.repo

-- The reasons, in place of their texts.
pub data Block : Type 0 where
  failed_request : (path : String) → (message : String) → Block
  bad_status : (path : String) → ℕ → Block
  malformed_pr head_missing unprotected no_required_checks no_trusted_apps checks_unverified
        head_unknown no_permissions can_bypass :
      Block
  not_open : Json → Block
  wrong_base : Json → Block
  no_check_run : (name : String) → Block
  not_success : (name : String) → Json → Block
  no_app_id : (name : String) → Block
  untrusted_app : (name : String) → Number → Block
  head_moved : (live approved : String) → Block

abbrev pub head_of : Json → Option String
head_of (string sha) = if sha == "" then none else some sha
head_of _ = none

abbrev when : Bool → Block → List Block
when true b = b ∷ []
when false b = []

abbrev pub pr_blocks : PreflightInput → Json → List Block
pr_blocks input pr =
    when (not (is_text "open" (get pr "state"))) (not_open (get pr "state"))
    ++ (when (not (is_text input.base_branch (get (get pr "base") "ref")))
          (wrong_base (get (get pr "base") "ref"))
        ++ when (not (is_some (head_of (get (get pr "head") "sha")))) head_missing)

-- Check 1: the reasons, and the live head.
unfoldable pub pr_snapshot : PreflightInput → String → Response → List Block × Option String
pr_snapshot input path (request_failed message) = (failed_request path message ∷ [], none)
pr_snapshot input path (answered status pr) =
    if status == 200
    then (if is_record pr
        then (pr_blocks input pr, head_of (get (get pr "head") "sha"))
        else (malformed_pr ∷ [], none))
    else (bad_status path status ∷ [], none)

-- A set of names, in the order of insertion.
abbrev pub add_name : List String → Json → List String
add_name names (string name) = if contains names name then names else names ++ name ∷ []
add_name names _ = names

abbrev pub add_contexts : List String → Items → List String
add_contexts names end = names
add_contexts names (item c items) = add_contexts (add_name names c) items

abbrev pub add_array : List String → Json → List String
add_array names (array items) = add_contexts names items
add_array names _ = names

-- What one source of protection contributes: reasons, whether it protects, and the required names.
pub record Protection : Type 0 where
  pub blocks : List Block
  pub found : Bool
  pub names : List String

unfoldable pub classic_protection : String → Response → Protection
classic_protection path (request_failed message) = record {
  blocks = failed_request path message ∷ [];
  found = false;
  names = [];
}
classic_protection path (answered status body) =
    if status == 200
    then record {
      blocks = [];
      found = true;
      names = add_array [] (get (get body "required_status_checks") "contexts");
    }
    else record {
      blocks = when (not (status == 404)) (bad_status path status);
      found = false;
      names = [];
    }

abbrev pub add_checks : List String → Items → List String
add_checks names end = names
add_checks names (item c items) = add_checks (add_name names (get c "context")) items

abbrev pub add_check_array : List String → Json → List String
add_check_array names (array items) = add_checks names items
add_check_array names _ = names

abbrev pub add_rules : List String → Items → List String
add_rules names end = names
add_rules names (item rule rules) =
    add_rules
      (if is_text "required_status_checks" (get rule "type")
        then add_check_array names (get (get rule "parameters") "required_status_checks")
        else names)
      rules

abbrev pub apply_rules : Protection → Json → Protection
apply_rules p (array (item rule rules)) = record {
  blocks = p.blocks;
  found = true;
  names = add_rules p.names (item rule rules);
}
apply_rules p _ = p

unfoldable pub ruleset_protection : String → Protection → Response → Protection
ruleset_protection path p (request_failed message) = record p {
  blocks = p.blocks ++ failed_request path message ∷ [];
}
ruleset_protection path p (answered status body) =
    if status == 200
    then apply_rules p body
    else record p { blocks = p.blocks ++ when (not (status == 404)) (bad_status path status) }

abbrev pub find_run : String → Items → Option Json
find_run name end = none
find_run name (item run runs) =
    let rest = find_run name runs in if is_text name (get run "name") then some run else rest

abbrev pub app_block : List ℕ → String → Json → List Block
app_block trusted name (number (natural id)) =
    when (not (contains trusted id)) (untrusted_app name (natural id))
app_block trusted name (number n) = untrusted_app name n ∷ []
app_block trusted name _ = no_app_id name ∷ []

abbrev pub run_block : List ℕ → String → Option Json → List Block
run_block trusted name none = no_check_run name ∷ []
run_block trusted name (some run) =
    if is_text "success" (get run "conclusion")
    then app_block trusted name (get (get run "app") "id")
    else not_success name (get run "conclusion") ∷ []

abbrev pub run_blocks : List ℕ → Items → List String → List Block
run_blocks trusted runs [] = []
run_blocks trusted runs (name ∷ names) =
    run_block trusted name (find_run name runs) ++ run_blocks trusted runs names

abbrev pub items_of : Json → Items
items_of (array items) = items
items_of _ = end

unfoldable pub check_runs : List ℕ → String → List String → Response → List Block
check_runs trusted path names (request_failed message) = failed_request path message ∷ []
check_runs trusted path names (answered status body) =
    if status == 200
    then run_blocks trusted (items_of (get body "check_runs")) names
    else bad_status path status ∷ []

-- Check (b): the required checks on the live head.
unfoldable pub required_checks :
    ForgeClient → PreflightInput → Protection → Option String → List Block
required_checks client input p live =
    if not p.found
    then []
    else if is_empty p.names
    then no_required_checks ∷ []
    else if is_empty input.trusted_check_app_ids
    then no_trusted_apps ∷ []
    else elim live [
      | none ↦ checks_unverified ∷ []
      | some head ↦
          let path = repo_path input ⧺ "/commits/" ⧺ head ⧺ "/check-runs" in
          check_runs input.trusted_check_app_ids path p.names (client path)
    ]

-- Check (c): the live head is the approved and the local one.
abbrev pub freshness_blocks : PreflightInput → Option String → List Block
freshness_blocks input none = head_unknown ∷ []
freshness_blocks input (some live) =
    when (not (live == input.approved_sha) || not (live == input.head_sha))
      (head_moved live input.approved_sha)

-- Check (d): the bot's permissions.
unfoldable pub permission_blocks : String → Response → List Block
permission_blocks path (request_failed message) = failed_request path message ∷ []
permission_blocks path (answered status body) =
    if status == 200
    then (if is_record (get body "permissions")
        then when
            (is_true (get (get body "permissions") "admin")
              || is_true (get (get body "permissions") "maintain"))
            can_bypass
        else no_permissions ∷ [])
    else bad_status path status ∷ []

abbrev pub pr_path : PreflightInput → String
pr_path input = repo_path input ⧺ "/pulls/" ⧺ decimal input.pr_number

abbrev pub protection_of : ForgeClient → PreflightInput → Protection
protection_of client input =
    let protection_path = repo_path input ⧺ "/branches/" ⧺ input.base_branch ⧺ "/protection" in
    let rules_path = repo_path input ⧺ "/rules/branches/" ⧺ input.base_branch in
    ruleset_protection rules_path (classic_protection protection_path (client protection_path))
      (client rules_path)

pub record PreflightReport : Type 0 where
  pub ok : Bool
  pub blocked : List Block

-- The reasons of the checks, in the order in which they are made.
unfoldable pub auto_merge_preflight : ForgeClient → PreflightInput → PreflightReport
auto_merge_preflight client input =
    let snapshot = pr_snapshot input (pr_path input) (client (pr_path input)) in
    let p = protection_of client input in
    let blocked =
      snapshot.0
      ++ (p.blocks
          ++ (when (not p.found) unprotected
              ++ (required_checks client input p snapshot.1
                  ++ (freshness_blocks input snapshot.1
                      ++ permission_blocks (repo_path input) (client (repo_path input)))))) in
    record { ok = is_empty blocked; blocked = blocked }

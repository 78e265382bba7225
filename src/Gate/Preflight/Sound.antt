-- ===== src/Gate/Preflight/Sound.antt =====
-- What a preflight that passes has seen (src/forge/preflight.ts).
use nightshift0s.Prelude.{
  is_empty, append-empty, ℕ, String, ◌≡◌, refl, ◌∙◌, ap, subst, inl, inr, Bool, true, false, not,
  ◌||◌, Option, none, some, List, [], ◌∷◌, ◌==◌, nat_Eq, string_Eq, nat_eq_iff, eq_iff, contains,
  All, if◌then◌else◌, arith, Bool-cases,
}
use nightshift0s.Prelude.Json
use nightshift0s.Prelude.Json.{
  Json, Number, natural, string, number, Items, get, is_text, is_true, text_is,
}
use nightshift0s.Prelude.Text.{◌⧺◌}
use nightshift0s.Gate.Preflight.{
  is_record, Response, answered, request_failed, ForgeClient, PreflightInput, repo_path, pr_path,
  Block, when, head_of, pr_blocks, pr_snapshot, Protection, protection_of, find_run, app_block,
  run_block, run_blocks, items_of, check_runs, required_checks, freshness_blocks, permission_blocks,
  auto_merge_preflight,
}
use nightshift0s.Gate.Preflight

when-empty : (b : Bool) (x : Block) → is_empty (when b x) ≡ true → b ≡ false
when-empty true x h = cc
when-empty false x h = refl

not-false : (b : Bool) → not b ≡ false → b ≡ true
not-false true h = refl
not-false false h = cc

-- The pull request is open on the base branch, and its live head is known.
abbrev pub IsOpenAt : ForgeClient → PreflightInput → String → Type 0
IsOpenAt client input live =
    (pr : Json) × (client (pr_path input) ≡ answered 200 pr)
    × (get pr "state" ≡ string "open")
    × (get (get pr "base") "ref" ≡ string input.base_branch)
    × (head_of (get (get pr "head") "sha") ≡ some live)

-- The run that counts for a required name succeeded, and came from a trusted app.
abbrev pub IsTrusted : List ℕ → Items → String → Type 0
IsTrusted trusted runs name =
    (run : Json) × (id : ℕ) × (find_run name runs ≡ some run)
    × (get run "conclusion" ≡ string "success")
    × (get (get run "app") "id" ≡ number (natural id))
    × (contains trusted id ≡ true)

abbrev pub ChecksGreen : ForgeClient → PreflightInput → String → Type 0
ChecksGreen client input live =
    (body : Json) × (client (repo_path input ⧺ "/commits/" ⧺ live ⧺ "/check-runs")
      ≡ answered 200 body)
    × All (IsTrusted input.trusted_check_app_ids (items_of (get body "check_runs")))
        (protection_of client input).names

abbrev pub CannotBypass : ForgeClient → PreflightInput → Type 0
CannotBypass client input =
    (body : Json) × (client (repo_path input) ≡ answered 200 body)
    × (is_record (get body "permissions") ≡ true)
    × (is_true (get (get body "permissions") "admin") ≡ false)
    × (is_true (get (get body "permissions") "maintain") ≡ false)

app-trusted :
    (trusted : List ℕ) (name : String) (v : Json)
    → is_empty (app_block trusted name v) ≡ true
    → (id : ℕ) × (v ≡ number (natural id)) × (contains trusted id ≡ true)
app-trusted trusted name (number (natural id)) h = (
  id,
  refl,
  not-false (contains trusted id)
      (when-empty (not (contains trusted id)) (Preflight.untrusted_app name (natural id)) h),
)
app-trusted trusted name (number (Json.negative n)) h = cc
app-trusted trusted name (number (Json.fraction b w n d)) h = cc
app-trusted trusted name (number (Json.infinite b)) h = cc
app-trusted trusted name (string t) h = cc
app-trusted trusted name Json.null h = cc
app-trusted trusted name Json.absent h = cc
app-trusted trusted name (Json.boolean b) h = cc
app-trusted trusted name (Json.array items) h = cc
app-trusted trusted name (Json.object fields) h = cc

run-IsTrusted :
    (trusted : List ℕ) (runs : Items) (name : String) (o : Option Json)
    → find_run name runs ≡ o
    → is_empty (run_block trusted name o) ≡ true
    → IsTrusted trusted runs name
run-IsTrusted trusted runs name none e h = cc
run-IsTrusted trusted runs name (some run) e h =
    elim (Bool-cases (is_text "success" (get run "conclusion"))) [
      | inl passed ↦
          let (id, is, known) =
            app-trusted trusted name (get (get run "app") "id") (ground (arith, passed)) in
          (run, id, e, text_is "success" (get run "conclusion") passed, is, known)
      | inr failed ↦ ground (arith, failed)
    ]

runs-IsTrusted :
    (trusted : List ℕ) (runs : Items) (names : List String)
    → is_empty (run_blocks trusted runs names) ≡ true
    → All (IsTrusted trusted runs) names
runs-IsTrusted trusted runs [] h = tt
runs-IsTrusted trusted runs (name ∷ names) h =
    let (here, there) =
      (append-empty (run_block trusted name (find_run name runs)) (run_blocks trusted runs names)).0
        h in
    (
      run-IsTrusted trusted runs name (find_run name runs) refl here,
      runs-IsTrusted trusted runs names there,
    )

status_is : (status : ℕ) → (status == 200) ≡ true → status ≡ 200
status_is status h = (nat_eq_iff status 200).0 h

checks-green :
    (trusted : List ℕ) (path : String) (names : List String) (r : Response)
    → is_empty (check_runs trusted path names r) ≡ true
    → (body : Json) × (r ≡ answered 200 body)
      × All (IsTrusted trusted (items_of (get body "check_runs"))) names
unfolding check_runs
checks-green trusted path names (request_failed message) h = cc
checks-green trusted path names (answered status body) h = elim (Bool-cases (status == 200)) [
  | inl fine ↦ (
    body,
    ap (λ s. answered s body) (status_is status fine),
    runs-IsTrusted trusted (items_of (get body "check_runs")) names (ground (arith, fine)),
  )
  | inr odd ↦ ground (arith, odd)
]

no_bypass :
    (v : Json)
    → is_empty (
        if is_record v
        then when (is_true (get v "admin") || is_true (get v "maintain")) Preflight.can_bypass
        else Preflight.no_permissions ∷ [])
      ≡ true
    → (is_record v ≡ true)
      × (is_true (get v "admin") ≡ false)
      × (is_true (get v "maintain") ≡ false)
no_bypass v h = ground arith

permissions-fine :
    (path : String) (r : Response)
    → is_empty (permission_blocks path r) ≡ true
    → (body : Json) × (r ≡ answered 200 body)
      × (is_record (get body "permissions") ≡ true)
      × (is_true (get (get body "permissions") "admin") ≡ false)
      × (is_true (get (get body "permissions") "maintain") ≡ false)
unfolding permission_blocks
permissions-fine path (request_failed message) h = cc
permissions-fine path (answered status body) h = elim (Bool-cases (status == 200)) [
  | inl fine ↦
      let (there, admin, maintain) = no_bypass (get body "permissions") (ground (arith, fine)) in
      (body, ap (λ s. answered s body) (status_is status fine), there, admin, maintain)
  | inr odd ↦ ground (arith, odd)
]

pr_blocks-none :
    (input : PreflightInput) (pr : Json)
    → is_empty (pr_blocks input pr) ≡ true
    → (get pr "state" ≡ string "open") × (get (get pr "base") "ref" ≡ string input.base_branch)
pr_blocks-none input pr h =
    let state = is_text "open" (get pr "state") in
    let base = is_text input.base_branch (get (get pr "base") "ref") in
    let first = (append-empty (when (not state) (Preflight.not_open (get pr "state"))) _).0 h in
    let second =
      (append-empty (when (not base) (Preflight.wrong_base (get (get pr "base") "ref"))) _).0
        first.1 in
    (
      text_is "open" (get pr "state") (not-false state (when-empty (not state) _ first.0)),
      text_is input.base_branch (get (get pr "base") "ref")
          (not-false base (when-empty (not base) _ second.0)),
    )

snapshot-fine :
    (input : PreflightInput) (path : String) (r : Response)
    → is_empty (pr_snapshot input path r).0 ≡ true
    → (pr : Json) × (r ≡ answered 200 pr)
      × (get pr "state" ≡ string "open")
      × (get (get pr "base") "ref" ≡ string input.base_branch)
      × (head_of (get (get pr "head") "sha") ≡ (pr_snapshot input path r).1)
unfolding pr_snapshot
snapshot-fine input path (request_failed message) h = cc
snapshot-fine input path (answered status pr) h = elim (Bool-cases (status == 200)) [
  | inr odd ↦ ground (arith, odd)
  | inl fine ↦ elim (Bool-cases (is_record pr)) [
    | inr odd ↦ ground (arith, fine, odd)
    | inl record_pr ↦
        let (opened, base) = pr_blocks-none input pr (ground (arith, fine, record_pr)) in
        (
          pr,
          ap (λ s. answered s pr) (status_is status fine),
          opened,
          base,
          ground (arith, fine, record_pr),
        )
  ]
]

fresh-head :
    (input : PreflightInput) (live : Option String)
    → is_empty (freshness_blocks input live) ≡ true
    → (head : String) × (live ≡ some head) × (head ≡ input.approved_sha) × (head ≡ input.head_sha)
fresh-head input none h = cc
fresh-head input (some head) h = elim (Bool-cases (head == input.approved_sha)) [
  | inr away ↦ ground (arith, away)
  | inl at ↦ elim (Bool-cases (head == input.head_sha)) [
    | inr away ↦ ground (arith, away, at)
    | inl here ↦
        (head, refl, (eq_iff head input.approved_sha).0 at, (eq_iff head input.head_sha).0 here)
  ]
]

required-green :
    (client : ForgeClient) (input : PreflightInput) (p : Protection) (head : String)
    → p.found ≡ true
    → is_empty (required_checks client input p (some head)) ≡ true
    → (is_empty p.names ≡ false)
      × (body : Json) × (client (repo_path input ⧺ "/commits/" ⧺ head ⧺ "/check-runs")
          ≡ answered 200 body)
      × All (IsTrusted input.trusted_check_app_ids (items_of (get body "check_runs"))) p.names
unfolding required_checks
required-green client input p head found h = elim (Bool-cases (is_empty p.names)) [
  | inl bare ↦ ground (arith, found, bare)
  | inr some_names ↦ elim (Bool-cases (is_empty input.trusted_check_app_ids)) [
    | inl bare ↦ ground (arith, found, some_names, bare)
    | inr some_apps ↦
        let path = repo_path input ⧺ "/commits/" ⧺ head ⧺ "/check-runs" in
        let (body, answers, green) =
          checks-green input.trusted_check_app_ids path p.names (client path)
            (ground (arith, found, some_names, some_apps)) in
        (some_names, body, answers, green)
  ]
]

-- A preflight that passes has seen: the pull request open on the base branch, with a live head that
-- is both the approved and the local one; a protection of the base branch that requires checks; for
-- each required name a run on that head that succeeded and came from a trusted app; and a token
-- without a permission that could bypass the protection.
pub auto_merge_preflight_sound :
    (client : ForgeClient) (input : PreflightInput)
    → (auto_merge_preflight client input).ok ≡ true
    → (live : String) × IsOpenAt client input live
      × (live ≡ input.approved_sha)
      × (live ≡ input.head_sha)
      × ((protection_of client input).found ≡ true)
      × (is_empty (protection_of client input).names ≡ false)
      × ChecksGreen client input live
      × CannotBypass client input
unfolding auto_merge_preflight
auto_merge_preflight_sound client input h =
    let snapshot = pr_snapshot input (pr_path input) (client (pr_path input)) in
    let p = protection_of client input in
    let a = (append-empty snapshot.0 _).0 h in
    let b = (append-empty p.blocks _).0 a.1 in
    let c = (append-empty (when (not p.found) Preflight.unprotected) _).0 b.1 in
    let d = (append-empty (required_checks client input p snapshot.1) _).0 c.1 in
    let e = (append-empty (freshness_blocks input snapshot.1) _).0 d.1 in
    let (live, is_live, approved, local) = fresh-head input snapshot.1 e.0 in
    let (pr, answers, opened, base, head) =
      snapshot-fine input (pr_path input) (client (pr_path input)) a.0 in
    let found = not-false p.found (when-empty (not p.found) Preflight.unprotected c.0) in
    let (names, body, checked, green) =
      required-green client input p live found
        (subst (λ l. is_empty (required_checks client input p l) ≡ true) is_live d.0) in
    (
      live,
      (pr, answers, opened, base, head ∙ is_live),
      approved,
      local,
      found,
      names,
      (body, checked, green),
      permissions-fine (repo_path input) (client (repo_path input)) e.1,
    )

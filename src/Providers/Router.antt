-- ===== src/Providers/Router.antt =====
-- The choice of a driver for a role by its proven capabilities (src/providers/router.ts).
use nightshift0s.Prelude.{
  Bool, true, false, ◌&&◌, Option, none, some, List, [], ◌∷◌, ◌++◌, ◌≡◌, ap, sym, ◌∙◌, contains,
  if◌then◌else◌, inl, inr, Bool-cases, All,
}
use nightshift0s.Db.Columns.Runs.{RunKind, coder, reviewer, judge, run_kind_Eq}
use nightshift0s.Db.Columns.Providers.{AuthLane}

pub record Capabilities : Type 0 where
  pub interactive : Bool
  pub resume : Bool
  pub fork : Bool
  pub structured_output : Bool
  pub cost_reporting : Bool
  pub auth : List AuthLane
  pub roles : List RunKind

pub data Capability : Type 0 where
  needs_structured_output needs_resume : Capability

unfoldable pub required_capabilities : RunKind → List Capability
required_capabilities reviewer = needs_structured_output ∷ []
required_capabilities judge = needs_structured_output ∷ []
required_capabilities coder = needs_resume ∷ []
required_capabilities _ = []

abbrev pub is_proven : Capabilities → Capability → Bool
is_proven proven needs_structured_output = proven.structured_output
is_proven proven needs_resume = proven.resume

abbrev every_proven : Capabilities → List Capability → Bool
every_proven proven [] = true
every_proven proven (cap ∷ caps) = is_proven proven cap && every_proven proven caps

unfoldable pub qualifies : RunKind → Capabilities → Bool
unfolding required_capabilities
qualifies role proven =
    contains proven.roles role && every_proven proven (required_capabilities role)

some-injective {ℓ} : {A : Type ℓ} {a b : A} → some a ≡ some b → a ≡ b
some-injective h = cc

module _ {Driver : Type 0} where
  unfoldable pub select_driver : List (Driver × Capabilities) → RunKind → Option Driver
  unfolding qualifies
  select_driver [] role = none
  select_driver ((driver, proven) ∷ drivers) role =
      let rest = select_driver drivers role in if qualifies role proven then some driver else rest

  -- A driver that is selected is proven for the role, and no driver before it is.
  select_driver-First :
      (drivers : List (Driver × Capabilities)) (role : RunKind) {d : Driver}
      → select_driver drivers role ≡ some d
      → (before : List (Driver × Capabilities)) × (proven : Capabilities) × (after : List
          (Driver × Capabilities))
        × (drivers ≡ before ++ (d, proven) ∷ after)
        × (qualifies role proven ≡ true)
        × All (λ p. qualifies role p.1 ≡ false) before
  unfolding select_driver
  select_driver-First [] role h = cc
  select_driver-First ((e, proven) ∷ drivers) role {d = d} h =
      elim (Bool-cases (qualifies role proven)) [
        | inl fits ↦
            let same = ap (λ b. if b then some e else select_driver drivers role) (sym fits) ∙ h in
            ([], proven, drivers, ap (λ x. (x, proven) ∷ drivers) (some-injective same), fits, tt)
        | inr refused ↦
            let later =
              ap (λ b. if b then some e else select_driver drivers role) (sym refused) ∙ h in
            let (before, p, after, split, fits, none_before) =
              select_driver-First drivers role later in
            (
              (e, proven) ∷ before,
              p,
              after,
              ap (λ l. (e, proven) ∷ l) split,
              fits,
              (refused, none_before),
            )
      ]

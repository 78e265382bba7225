-- ===== src/Tasks/Crud/Checks.antt =====
-- What holds of a result where there is one (src/tasks/tasks.ts).
use nightshift0s.Prelude.{◌≡◌, refl}
use nightshift0s.Tasks.Fields.{Checked, valid, invalid, ◌>>=◌}

abbrev pub Holds : {A : Type 0} → (A → Type 0) → Checked A → Type 0
Holds P (valid a) = P a
Holds P (invalid e) = Unit

pub bind-Holds :
    {A B : Type 0} (P : B → Type 0) (c : Checked A) (f : A → Checked B)
    → ((a : A) → c ≡ valid a → Holds P (f a))
    → Holds P (c >>= f)
bind-Holds P (valid a) f h = h a refl
bind-Holds P (invalid e) f h = tt

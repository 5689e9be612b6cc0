-- ===== src/Http/Step.antt =====
-- Functions that return early: a step over a state `S` either returns its function's result, or goes
-- on with a value.
use elastos_net_hive_native.Base.{ℤ, Bool, Option, none, some, if◌then◌else◌}

pub data Res (A : Type 0) : Type 0 where
  ret : ℤ → Res A
  go : A → Res A

abbrev pub Step : Type 0 → Type 0 → Type 0
Step S A = S → Res A × S

-- On with `f`, unless the function has returned.
abbrev pub follow : {S A B : Type 0} → (A → Step S B) → Res A × S → Res B × S
follow f (ret r, s) = (ret r, s)
follow f (go a, s) = f a s

infixl 5 ◌>>=◌ ◌>>◌
abbrev pub ◌>>=◌ : {S A B : Type 0} → Step S A → (A → Step S B) → Step S B
◌>>=◌ m f s = follow f (m s)

abbrev pub ◌>>◌ : {S B : Type 0} → Step S (Unit {0}) → Step S B → Step S B
m >> k = m >>= λ _. k

abbrev pub return : {S A : Type 0} → ℤ → Step S A
return r s = (ret r, s)

abbrev pub continue : {S A : Type 0} → A → Step S A
continue a s = (go a, s)

-- if (test) return r;
abbrev pub return_if : {S : Type 0} → Bool → ℤ → Step S (Unit {0})
return_if test r s = if test then (ret r, s) else (go tt, s)

-- if (test) { cleanup; return r; }
abbrev pub return_after : {S : Type 0} → Bool → (S → S) → ℤ → Step S (Unit {0})
return_after test cleanup r s = if test then (ret r, cleanup s) else (go tt, s)

abbrev pub step : {S A : Type 0} → (S → A × S) → Step S A
step f s = (go (f s).0, (f s).1)

abbrev pub effect : {S : Type 0} → (S → S) → Step S (Unit {0})
effect f s = (go tt, f s)

-- The whole function: it returns what a step has returned, or what the last one gives.
abbrev pub value : {S : Type 0} → Res ℤ × S → ℤ × S
value (ret r, s) = (r, s)
value (go r, s) = (r, s)

abbrev pub function : {S : Type 0} → Step S ℤ → S → ℤ × S
function m s = value (m s)

-- if (!pointer) { cleanup; return r; }
abbrev pub need_after : {S A : Type 0} → Option A → (S → S) → ℤ → Step S A
need_after none cleanup r s = (ret r, cleanup s)
need_after (some a) cleanup r s = (go a, s)

abbrev pub need : {S A : Type 0} → Option A → ℤ → Step S A
need pointer r = need_after pointer (λ s. s) r

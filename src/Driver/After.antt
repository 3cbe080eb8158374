-- ===== src/Driver/After.antt =====
-- What holds of the state after a part of the loop, if the loop goes on.
use project_and_training_3_n.Wire.{header_size}
use project_and_training_3_n.Base.{
  ℕ, ◌&&◌, ◌≤◌, ◌⊎◌, ltb, arith, ◌≡◌, refl, subst, Bool, true, false, if◌then◌else◌,
}
use project_and_training_3_n.Driver.{Turn, next, returned, running, unbounded}
use project_and_training_3_n.Driver.Round.{◌>>=◌}

-- A size that is not from 1 to 3.
pub nothing-or-more : (s : ℕ) → (ltb 0 s && ltb s header_size) ≡ false → (s ≡ 0) ⊎ (header_size ≤ s)
nothing-or-more s e = ground arith

pub record After {A : Type 0} (P : A → Type 0) (turn : Turn A) : Type 0 where
  pub holds : (a : A) → turn ≡ next a → P a

module _ {A : Type 0} (P : A → Type 0) where
  pub next-After : (a : A) → P a → After P (next a)
  next-After a p = record { holds = λ b e. subst P (cc e) p }

  pub returned-After : After P returned
  returned-After = record { holds = λ b e. absurd (cc e) }

  pub running-After : After P running
  running-After = record { holds = λ b e. absurd (cc e) }

  pub unbounded-After : After P unbounded
  unbounded-After = record { holds = λ b e. absurd (cc e) }

  pub if-After : (b : Bool) {x y : Turn A} → After P x → After P y → After P (if b then x else y)
  if-After true px py = px
  if-After false px py = py

  -- Each branch with what its test says.
  pub if-After_cases :
      (b : Bool) {x y : Turn A}
      → (b ≡ true → After P x)
      → (b ≡ false → After P y)
      → After P (if b then x else y)
  if-After_cases true px py = px refl
  if-After_cases false px py = py refl

pub anything-After : {A : Type 0} (turn : Turn A) → After (λ _. Unit) turn
anything-After turn = record { holds = λ a e. tt }

pub bind-After :
    {A B : Type 0} (P : A → Type 0) (Q : B → Type 0) (turn : Turn A) (f : A → Turn B)
    → After P turn
    → ((a : A) → P a → After Q (f a))
    → After Q (turn >>= f)
bind-After P Q (next a) f p k = k a (p.holds a refl)
bind-After P Q returned f p k = returned-After Q
bind-After P Q running f p k = running-After Q
bind-After P Q unbounded f p k = unbounded-After Q

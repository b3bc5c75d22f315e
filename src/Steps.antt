-- ===== src/Steps.antt =====
-- Operations that read and write a state and may fail. What was written before a failure stays
-- written, so the state comes out beside the result.
use archetype_proxy_server.Prelude.{◌≡◌, refl, ap, ◌∙◌, Result, ok, err, inl, inr, ◌⊎◌}

abbrev pub Step {ℓ} : Type ℓ → Type 0 → Type 0 → Type ℓ
Step St E A = St → St × Result E A

module _ {ℓ} {St : Type ℓ} {E : Type 0} where
  abbrev pub done : {A : Type 0} → A → Step St E A
  done a state = (state, ok a)

  abbrev pub fail : {A : Type 0} → E → Step St E A
  fail e state = (state, err e)

  -- A result that does not touch the state, and a write.
  abbrev pub lift : {A : Type 0} → Result E A → Step St E A
  lift r state = (state, r)

  abbrev pub update : (St → St) → Step St E (Unit {0})
  update f state = (f state, ok tt)

  -- A value that is computed from the state.
  abbrev pub look : {A : Type 0} → (St → A) → Step St E A
  look f state = (state, ok (f state))

  abbrev pub resume : {A B : Type 0} → (A → Step St E B) → St × Result E A → St × Result E B
  resume next (state, ok a) = next a state
  resume next (state, err e) = (state, err e)

infixl 5 ◌>>=◌ ◌>>◌
unfoldable pub ◌>>=◌ {ℓ} :
    {St : Type ℓ} {E A B : Type 0} → Step St E A → (A → Step St E B) → Step St E B
(step >>= next) state = resume next (step state)

abbrev pub ◌>>◌ {ℓ} :
    {St : Type ℓ} {E B : Type 0} → Step St E (Unit {0}) → Step St E B → Step St E B
step >> next = step >>= λ _. next

module _ {ℓ} {St : Type ℓ} {E A B : Type 0} where
  -- Inversion of a chain: it succeeds when both parts do, and fails when one of them does.
  pub resume-ok :
      (next : A → Step St E B) (m : St × Result E A) {b : B} {after : St}
      → resume next m ≡ (after, ok b)
      → (a : A) × (m.1 ≡ ok a) × (next a m.0 ≡ (after, ok b))
  resume-ok next (state, ok a) h = (a, refl, h)
  resume-ok next (state, err e) h = absurd cc

  pub resume-err :
      (next : A → Step St E B) (m : St × Result E A) {e : E} {after : St}
      → resume next m ≡ (after, err e)
      → ((m.0 ≡ after) × (m.1 ≡ err e)) ⊎ ((a : A) × (m.1 ≡ ok a) × (next a m.0 ≡ (after, err e)))
  resume-err next (state, ok a) h = inr (a, refl, h)
  resume-err next (state, err f) h = inl (ap (λ x. x.0) h, cc)

-- A step that leaves one part of the state as it is.
pub record Keeps {ℓ} {St : Type ℓ} {E A X : Type 0} (part : St → X) (step : Step St E A)
    : Type ℓ where
  pub same : (state : St) → part (step state).0 ≡ part state

module _ {ℓ} {St : Type ℓ} {E A X : Type 0} {part : St → X} where
  pub keeps :
      {step : Step St E A} → ((state : St) → part (step state).0 ≡ part state) → Keeps part step
  keeps h = record { same = h }

module _ {ℓ} {St : Type ℓ} {E A B X : Type 0} {part : St → X} where
  pub chain :
      {step : Step St E A} {next : A → Step St E B}
      → Keeps part step
      → ((a : A) → Keeps part (next a))
      → Keeps part (step >>= next)
  unfolding ◌>>=◌
  chain {step = step} {next = next} kept kept_next = record {
    same = λ state. after state (step state) (kept.same state);
  }
    where
      after :
          (state : St) (m : St × Result E A)
          → part m.0 ≡ part state
          → part (resume next m).0 ≡ part state
      after state (s, ok a) e = (kept_next a).same s ∙ e
      after state (s, err f) e = e

-- A step that keeps a property of the state, whether it succeeds or fails.
pub record Preserves {ℓ} {St : Type ℓ} {E A : Type 0} (P : St → Type 0) (step : Step St E A)
    : Type ℓ where
  pub after : (state : St) → P state → P (step state).0

module _ {ℓ} {St : Type ℓ} {E A : Type 0} {P : St → Type 0} where
  pub preserves :
      {step : Step St E A} → ((state : St) → P state → P (step state).0) → Preserves P step
  preserves h = record { after = h }

module _ {ℓ} {St : Type ℓ} {E A B : Type 0} {P : St → Type 0} where
  pub preserved :
      {step : Step St E A} {next : A → Step St E B}
      → Preserves P step
      → ((a : A) → Preserves P (next a))
      → Preserves P (step >>= next)
  unfolding ◌>>=◌
  preserved {step = step} {next = next} first rest = record {
    after = λ state h. go (step state) (first.after state h);
  }
    where
      go : (m : St × Result E A) → P m.0 → P (resume next m).0
      go (state, ok a) h = (rest a).after state h
      go (state, err e) h = h

-- What holds of the state and the value when a step succeeds.
abbrev pub Holds {ℓ} : {St : Type ℓ} {E A : Type 0} → (A → St → Type 0) → St × Result E A → Type 0
Holds Q (state, ok a) = Q a state
Holds Q (state, err e) = Unit

-- From a state with `P`, a step that succeeds leads to a value and a state with `Q`.
pub record Ensures {ℓ} {St : Type ℓ} {E A : Type 0} (P : St → Type 0) (step : Step St E A)
    (Q : A → St → Type 0) : Type ℓ where
  pub run : (state : St) → P state → Holds Q (step state)

module _ {ℓ} {St : Type ℓ} {E A : Type 0} where
  -- A step that keeps `P`, whatever it returns.
  pub silent :
      {P : St → Type 0} {step : Step St E A}
      → ((state : St) → P state → P (step state).0)
      → Ensures P step (λ _. P)
  silent {P = P} {step = step} h = record { run = λ state p. go (step state) (h state p) }
    where
      go : (m : St × Result E A) → P m.0 → Holds (λ _. P) m
      go (state, ok a) p = p
      go (state, err e) p = tt

  pub returned : {Q : A → St → Type 0} (a : A) → Ensures (Q a) (done {E = E} a) Q
  returned a = record { run = λ state q. q }

  pub given :
      {P : St → Type 0} {Q : A → St → Type 0} {a : A}
      → ((state : St) → P state → Q a state)
      → Ensures P (done {E = E} a) Q
  given h = record { run = h }

  -- A result that is given: its value is known afterwards.
  pub observed :
      {P : St → Type 0} (r : Result E A) → Ensures P (lift r) (λ a state. (r ≡ ok a) × P state)
  observed {P = P} r = record { run = λ state p. go P r state p refl }
    where
      go :
          (P : St → Type 0) (q : Result E A) (state : St)
          → P state
          → r ≡ q
          → Holds (λ a state. (r ≡ ok a) × P state) (state, q)
      go P (ok a) state p e = (e, p)
      go P (err f) state p e = tt

  pub always : {P : St → Type 0} {step : Step St E A} → Ensures P step (λ _ _. Unit)
  always {step = step} = record { run = λ state p. go (step state) }
    where
      go : (m : St × Result E A) → Holds (λ _ _. Unit) m
      go (state, ok a) = tt
      go (state, err e) = tt

  -- What does not speak of the state is a hypothesis.
  pub supposing :
      {F : Type 0} {step : Step St E A} {Q : A → St → Type 0}
      → (F → Ensures (λ _. Unit) step Q)
      → Ensures (λ _. F) step Q
  supposing h = record { run = λ state f. (h f).run state tt }

  pub weaken :
      {P : St → Type 0} {Q R : A → St → Type 0} {step : Step St E A}
      → ((a : A) (state : St) → Q a state → R a state)
      → Ensures P step Q
      → Ensures P step R
  weaken {Q = Q} {R = R} {step = step} imp h = record {
    run = λ state p. go (step state) (h.run state p);
  }
    where
      go : (m : St × Result E A) → Holds Q m → Holds R m
      go (state, ok a) q = imp a state q
      go (state, err e) q = tt

  pub failed : {P : St → Type 0} {Q : A → St → Type 0} (e : E) → Ensures P (fail {A = A} e) Q
  failed e = record { run = λ state p. tt }

module _ {ℓ} {St : Type ℓ} {E : Type 0} where
  pub written :
      {P Q : St → Type 0} {f : St → St}
      → ((state : St) → P state → Q (f state))
      → Ensures P (update {E = E} f) (λ _. Q)
  written h = record { run = h }

module _ {ℓ} {St : Type ℓ} {E A B : Type 0} where
  pub followed :
      {P : St → Type 0} {Q : A → St → Type 0} {R : B → St → Type 0} {step : Step St E A}
      {next : A → Step St E B}
      → Ensures P step Q
      → ((a : A) → Ensures (Q a) (next a) R)
      → Ensures P (step >>= next) R
  unfolding ◌>>=◌
  followed {Q = Q} {R = R} {step = step} {next = next} first rest = record {
    run = λ state p. go (step state) (first.run state p);
  }
    where
      go : (m : St × Result E A) → Holds Q m → Holds R (resume next m)
      go (state, ok a) q = (rest a).run state q
      go (state, err e) q = tt

-- ===== src/Parser/Utils/Steps.antt =====
-- Steps of a parser: a function on the parser's state that returns, reads a token that is not
-- there, or is out of fuel; and rules for how much of the text a step leaves.
use aoba.Prelude.{ℕ, suc, ◌≤◌, ◌<◌, Bool, true, false, ◌≡◌, refl, ◌∙◌, arith}

-- A read of a token that is not there crashes: a failed DCHECK, or the use of a null pointer.
pub data Outcome (S A : Type 0) : Type 0 where
  returned : A → S → Outcome S A
  crashed : Outcome S A
  out_of_fuel : Outcome S A

abbrev pub Step : Type 0 → Type 0 → Type 0
Step S A = S → Outcome S A

module _ {S : Type 0} where
  abbrev pub and_then : {A B : Type 0} → Outcome S A → (A → Step S B) → Outcome S B
  and_then (returned a s) k = k a s
  and_then crashed k = crashed
  and_then out_of_fuel k = out_of_fuel

  infixl 5 ◌>>=◌ ◌>>◌
  unfoldable pub ◌>>=◌ : {A B : Type 0} → Step S A → (A → Step S B) → Step S B
  ◌>>=◌ m k s = and_then (m s) k

  abbrev pub ◌>>◌ : {B : Type 0} → Step S (Unit {0}) → Step S B → Step S B
  m >> k = m >>= λ _. k

  unfoldable pub pure : {A : Type 0} → A → Step S A
  pure a s = returned a s

  -- The choice of a step, shut like `>>=`, so that the rules below see it.
  infix 1 if◌then◌else◌
  unfoldable pub if◌then◌else◌ : {A : Type 0} → Bool → Step S A → Step S A → Step S A
  if true then f else g = f
  if false then f else g = g

  unfoldable pub crash : {A : Type 0} → Step S A
  crash s = crashed

  unfoldable pub exhausted : {A : Type 0} → Step S A
  exhausted s = out_of_fuel

  -- A step that only reads the state, and one that only writes it.
  unfoldable pub gets : {A : Type 0} → (S → A) → Step S A
  gets f s = returned (f s) s

  unfoldable pub modify : (S → S) → Step S (Unit {0})
  modify f s = returned tt (f s)

  -- The outcome has fuel, and what is returned is as `P` says.
  abbrev pub Ends : {A : Type 0} → (A → S → Type 0) → Outcome S A → Type 0
  Ends P (returned a s) = P a s
  Ends P crashed = Unit {0}
  Ends P out_of_fuel = ⊥

  pub Ends-and_then :
      {A B : Type 0} (P : A → S → Type 0) (Q : B → S → Type 0) (o : Outcome S A) (k : A → Step S B)
      → Ends P o
      → ((a : A) (s : S) → P a s → Ends Q (k a s))
      → Ends Q (and_then o k)
  Ends-and_then P Q (returned a s) k h f = f a s h
  Ends-and_then P Q crashed k h f = tt
  Ends-and_then P Q out_of_fuel k h f = h

  pub Ends-weaken :
      {A : Type 0} (P Q : A → S → Type 0) (o : Outcome S A)
      → Ends P o
      → ((a : A) (s : S) → P a s → Q a s)
      → Ends Q o
  Ends-weaken P Q (returned a s) h f = f a s h
  Ends-weaken P Q crashed h f = tt
  Ends-weaken P Q out_of_fuel h f = h

  pub Ends-both :
      {A : Type 0} (P Q : A → S → Type 0) (o : Outcome S A)
      → Ends P o
      → Ends Q o
      → Ends (λ a s. P a s × Q a s) o
  Ends-both P Q (returned a s) h k = (h, k)
  Ends-both P Q crashed h k = tt
  Ends-both P Q out_of_fuel h k = h

module _ {S A : Type 0} (P : A → S → Type 0) where
  pub if-Ends :
      (c : Bool) (f g : Step S A) (s : S)
      → Ends P (f s)
      → Ends P (g s)
      → Ends P ((if c then f else g) s)
  unfolding if◌then◌else◌
  if-Ends true f g s h k = h
  if-Ends false f g s h k = k

  pub if_cases-Ends :
      (c : Bool) (f g : Step S A) (s : S)
      → (c ≡ true → Ends P (f s))
      → (c ≡ false → Ends P (g s))
      → Ends P ((if c then f else g) s)
  unfolding if◌then◌else◌
  if_cases-Ends true f g s h k = h refl
  if_cases-Ends false f g s h k = k refl

  -- The outcome is a return, as `P` says.
  abbrev pub Succeeds : Outcome S A → Type 0
  Succeeds (returned a s) = P a s
  Succeeds crashed = ⊥
  Succeeds out_of_fuel = ⊥

  pub if-Succeeds :
      (c : Bool) (f g : Step S A) (s : S)
      → (c ≡ true → Succeeds (f s))
      → (c ≡ false → Succeeds (g s))
      → Succeeds ((if c then f else g) s)
  unfolding if◌then◌else◌
  if-Succeeds true f g s h k = h refl
  if-Succeeds false f g s h k = k refl

-- `remaining` is how much text a state leaves, and no text is left where no token is.
module _ {S : Type 0} (remaining : S → ℕ) where
  -- The step leaves as much as there was.
  pub record Still {A : Type 0} (m : Step S A) : Type 0 where
    pub keeps : (s : S) → Ends (λ a q. remaining q ≡ remaining s) (m s)

  -- With less than `n` left the step ends, and leaves no more.
  pub record Calm {A : Type 0} (n : ℕ) (m : Step S A) : Type 0 where
    pub ends : (s : S) (b : ℕ) → remaining s ≤ b → b < n → Ends (λ a q. remaining q ≤ b) (m s)

  -- The same, where something is left.
  pub record CalmAhead {A : Type 0} (n : ℕ) (m : Step S A) : Type 0 where
    pub ends :
        (s : S) (b : ℕ) → remaining s ≤ b → 0 < b → b < n → Ends (λ a q. remaining q ≤ b) (m s)

  -- From a state with at least one unit less than the bound, the step ends within the bound.
  pub record Follows {A : Type 0} (n : ℕ) (m : Step S A) : Type 0 where
    pub ends : (s : S) (b : ℕ) → remaining s < b → b < n → Ends (λ a q. remaining q < b) (m s)

  -- The same, and the step leaves less.
  pub record Moves {A : Type 0} (n : ℕ) (m : Step S A) : Type 0 where
    pub ends :
        (s : S) (b : ℕ) → remaining s ≤ b → 0 < b → b < n → Ends (λ a q. remaining q < b) (m s)

  module _ {A : Type 0} where
    pub pure-Still : (a : A) → Still (pure a)
    unfolding pure
    pure-Still a = record { keeps = λ s. refl }

    pub crash-Still : Still {A = A} crash
    unfolding crash
    crash-Still = record { keeps = λ s. tt }

    pub gets-Still : (f : S → A) → Still (gets f)
    unfolding gets
    gets-Still f = record { keeps = λ s. refl }

    pub exhausted-Calm : Calm {A = A} 0 exhausted
    exhausted-Calm = record { ends = λ s b h lt. absurd (omega arith) }

    pub Still-Calm : (n : ℕ) (m : Step S A) → Still m → Calm n m
    Still-Calm n m h = record {
      ends = λ s b le lt.
          Ends-weaken (λ a q. remaining q ≡ remaining s) (λ a q. remaining q ≤ b) (m s) (h.keeps s)
            (λ a q e. omega (arith, e, le));
    }

    pub Calm-CalmAhead : (n : ℕ) (m : Step S A) → Calm n m → CalmAhead n m
    Calm-CalmAhead n m h = record { ends = λ s b le pos lt. h.ends s b le lt }

    pub Moves-CalmAhead : (n : ℕ) (m : Step S A) → Moves n m → CalmAhead n m
    Moves-CalmAhead n m h = record {
      ends = λ s b le pos lt.
          Ends-weaken (λ a q. remaining q < b) (λ a q. remaining q ≤ b) (m s) (h.ends s b le pos lt)
            (λ a q e. omega (arith, e));
    }

    pub Calm-Follows : (n : ℕ) (m : Step S A) → Calm n m → Follows (suc n) m
    Calm-Follows n m h = record {
      ends = λ s b lt lt'.
          Ends-weaken (λ a q. remaining q ≤ remaining s) (λ a q. remaining q < b) (m s)
            (h.ends s (remaining s) (omega arith) (omega (arith, lt, lt')))
            (λ a q le. omega (arith, le, lt));
    }

    pub Calm-down : (n k : ℕ) (m : Step S A) → k ≤ n → Calm n m → Calm k m
    Calm-down n k m h c = record { ends = λ s b le lt. c.ends s b le (omega (arith, h, lt)) }

    pub Calm-pred : (n : ℕ) (m : Step S A) → Calm (suc n) m → Calm n m
    Calm-pred n m c = Calm-down (suc n) n m (omega arith) c

    pub Moves-down : (n k : ℕ) (m : Step S A) → k ≤ n → Moves n m → Moves k m
    Moves-down n k m h c = record {
      ends = λ s b le pos lt. c.ends s b le pos (omega (arith, h, lt));
    }

    pub Moves-pred : (n : ℕ) (m : Step S A) → Moves (suc n) m → Moves n m
    Moves-pred n m c = Moves-down (suc n) n m (omega arith) c

  module _ {A B : Type 0} (m : Step S A) (k : A → Step S B) where
    pub bind-Still : Still m → ((a : A) → Still (k a)) → Still (m >>= k)
    unfolding ◌>>=◌
    bind-Still h f = record {
      keeps = λ s.
          Ends-and_then (λ a q. remaining q ≡ remaining s) (λ a q. remaining q ≡ remaining s) (m s)
            k (h.keeps s)
            (λ a q e.
              Ends-weaken (λ b r. remaining r ≡ remaining q) (λ b r. remaining r ≡ remaining s)
                (k a q) ((f a).keeps q) (λ b r d. d ∙ e));
    }

    pub bind-Calm : (n : ℕ) → Calm n m → ((a : A) → Calm n (k a)) → Calm n (m >>= k)
    unfolding ◌>>=◌
    bind-Calm n h f = record {
      ends = λ s b le lt.
          Ends-and_then (λ a q. remaining q ≤ b) (λ a q. remaining q ≤ b) (m s) k (h.ends s b le lt)
            (λ a q le'. (f a).ends q b le' lt);
    }

    pub bind-CalmAhead : (n : ℕ) → CalmAhead n m → ((a : A) → Calm n (k a)) → CalmAhead n (m >>= k)
    unfolding ◌>>=◌
    bind-CalmAhead n h f = record {
      ends = λ s b le pos lt.
          Ends-and_then (λ a q. remaining q ≤ b) (λ a q. remaining q ≤ b) (m s) k
            (h.ends s b le pos lt) (λ a q le'. (f a).ends q b le' lt);
    }

    pub bind-Still-CalmAhead :
        (n : ℕ) → Still m → ((a : A) → CalmAhead n (k a)) → CalmAhead n (m >>= k)
    unfolding ◌>>=◌
    bind-Still-CalmAhead n h f = record {
      ends = λ s b le pos lt.
          Ends-and_then (λ a q. remaining q ≡ remaining s) (λ a q. remaining q ≤ b) (m s) k
            (h.keeps s) (λ a q e. (f a).ends q b (omega (arith, e, le)) pos lt);
    }

    -- What follows a step that moves has one unit less to go.
    pub bind-Moves : (n : ℕ) → Moves (suc n) m → ((a : A) → Calm n (k a)) → Moves (suc n) (m >>= k)
    unfolding ◌>>=◌
    bind-Moves n h f = record {
      ends = λ s b le pos lt.
          Ends-and_then (λ a q. remaining q < b) (λ a q. remaining q < b) (m s) k
            (h.ends s b le pos lt)
            (λ a q less.
              Ends-weaken (λ c r. remaining r ≤ remaining q) (λ c r. remaining r < b) (k a q)
                ((f a).ends q (remaining q) (omega arith) (omega (arith, less, lt)))
                (λ c r le'. omega (arith, le', less)));
    }

    pub bind-Calm-Moves : (n : ℕ) → Moves n m → ((a : A) → Calm n (k a)) → Moves n (m >>= k)
    unfolding ◌>>=◌
    bind-Calm-Moves n h f = record {
      ends = λ s b le pos lt.
          Ends-and_then (λ a q. remaining q < b) (λ a q. remaining q < b) (m s) k
            (h.ends s b le pos lt)
            (λ a q less.
              Ends-weaken (λ c r. remaining r ≤ remaining q) (λ c r. remaining r < b) (k a q)
                ((f a).ends q (remaining q) (omega arith) (omega (arith, less, lt)))
                (λ c r le'. omega (arith, le', less)));
    }

    pub bind_first-Calm-Moves : (n : ℕ) → Calm n m → ((a : A) → Moves n (k a)) → Moves n (m >>= k)
    unfolding ◌>>=◌
    bind_first-Calm-Moves n h f = record {
      ends = λ s b le pos lt.
          Ends-and_then (λ a q. remaining q ≤ b) (λ a q. remaining q < b) (m s) k (h.ends s b le lt)
            (λ a q le'. (f a).ends q b le' pos lt);
    }

    -- What follows a step that moves may give a unit back and go on.
    pub bind-Moves-Follows : (n : ℕ) → Moves n m → ((a : A) → Follows n (k a)) → Moves n (m >>= k)
    unfolding ◌>>=◌
    bind-Moves-Follows n h f = record {
      ends = λ s b le pos lt.
          Ends-and_then (λ a q. remaining q < b) (λ a q. remaining q < b) (m s) k
            (h.ends s b le pos lt) (λ a q less. (f a).ends q b less lt);
    }

    pub bind-Still-Follows : (n : ℕ) → Still m → ((a : A) → Follows n (k a)) → Follows n (m >>= k)
    unfolding ◌>>=◌
    bind-Still-Follows n h f = record {
      ends = λ s b lt lt'.
          Ends-and_then (λ a q. remaining q ≡ remaining s) (λ a q. remaining q < b) (m s) k
            (h.keeps s) (λ a q e. (f a).ends q b (omega (arith, e, lt)) lt');
    }

    pub bind-Still-Moves : (n : ℕ) → Still m → ((a : A) → Moves n (k a)) → Moves n (m >>= k)
    unfolding ◌>>=◌
    bind-Still-Moves n h f = record {
      ends = λ s b le pos lt.
          Ends-and_then (λ a q. remaining q ≡ remaining s) (λ a q. remaining q < b) (m s) k
            (h.keeps s) (λ a q e. (f a).ends q b (omega (arith, e, le)) pos lt);
    }

  module _ {A : Type 0} where
    pub if-Still : (c : Bool) (f g : Step S A) → Still f → Still g → Still (if c then f else g)
    unfolding if◌then◌else◌
    if-Still true f g h k = h
    if-Still false f g h k = k

    pub if-Calm :
        (c : Bool) (f g : Step S A) (n : ℕ) → Calm n f → Calm n g → Calm n (if c then f else g)
    unfolding if◌then◌else◌
    if-Calm true f g n h k = h
    if-Calm false f g n h k = k

    pub if-CalmAhead :
        (c : Bool) (f g : Step S A) (n : ℕ)
        → CalmAhead n f
        → CalmAhead n g
        → CalmAhead n (if c then f else g)
    unfolding if◌then◌else◌
    if-CalmAhead true f g n h k = h
    if-CalmAhead false f g n h k = k

    pub if-Follows :
        (c : Bool) (f g : Step S A) (n : ℕ)
        → Follows n f
        → Follows n g
        → Follows n (if c then f else g)
    unfolding if◌then◌else◌
    if-Follows true f g n h k = h
    if-Follows false f g n h k = k

    pub if-Moves :
        (c : Bool) (f g : Step S A) (n : ℕ) → Moves n f → Moves n g → Moves n (if c then f else g)
    unfolding if◌then◌else◌
    if-Moves true f g n h k = h
    if-Moves false f g n h k = k

-- ===== src/Subgraph/Handler.antt =====
-- A handler changes the store of entities and gives a value, or it fails: then the block's changes are
-- discarded.
use stablecoin_sdk.Base.{◌≡◌, refl, Bool, true, false, Option, none, some, if◌then◌else◌}
use stablecoin_sdk.Subgraph.Numbers.{GraphNumbers}
use stablecoin_sdk.Subgraph.Entities.{EntityStore}

module _ ⦃num : GraphNumbers⦄ where
  abbrev pub Handler : Type 0 → Type 0
  Handler A = EntityStore → Option (A × EntityStore)

  unfoldable pub pure : {A : Type 0} → A → Handler A
  pure a s = some (a, s)

  unfoldable pub fail : {A : Type 0} → Handler A
  fail s = none

  abbrev continue_with :
      {A B : Type 0} → Option (A × EntityStore) → (A → Handler B) → Option (B × EntityStore)
  continue_with none f = none
  continue_with (some (a, s)) f = f a s

  infixl 5 ◌>>=◌ ◌>>◌
  -- Opening this opens the ways to build a handler too.
  unfoldable pub ◌>>=◌ : {A B : Type 0} → Handler A → (A → Handler B) → Handler B
  unfolding pure fail
  ◌>>=◌ m f s = continue_with (m s) f

  abbrev pub ◌>>◌ : {A B : Type 0} → Handler A → Handler B → Handler B
  m >> n = m >>= λ _. n

  -- Reading the store, and saving in it.
  unfoldable pub reads : {A : Type 0} → (EntityStore → A) → Handler A
  reads f s = some (f s, s)

  unfoldable pub saves : (EntityStore → EntityStore) → Handler (Unit {0})
  saves f s = some (tt, f s)

  abbrev pub value_or_fail : {A : Type 0} → Option A → Handler A
  value_or_fail none = fail
  value_or_fail (some a) = pure a

  continued :
      {A B : Type 0} (o : Option (A × EntityStore)) (f : A → Handler B) (b : B) (t : EntityStore)
      → continue_with o f ≡ some (b, t)
      → (a : A) × (u : EntityStore) × (o ≡ some (a, u)) × (f a u ≡ some (b, t))
  continued none f b t e = absurd (cc e)
  continued (some (a, u)) f b t e = (a, u, refl, e)

  -- From a store in `P`, what the handler gives and the store that it leaves are in `Q`.
  pub record Leads {A : Type 0} (P : EntityStore → Type 0) (m : Handler A)
      (Q : A → EntityStore → Type 0) : Type 0 where
    pub at : (s : EntityStore) (a : A) (t : EntityStore) → m s ≡ some (a, t) → P s → Q a t

  abbrev pub Keeps : {A : Type 0} → (EntityStore → Type 0) → Handler A → Type 0
  Keeps P m = Leads P m (λ _. P)

  module _ {P : EntityStore → Type 0} where
    pub Leads-reads :
        {A : Type 0} {Q : A → EntityStore → Type 0} (f : EntityStore → A)
        → ((s : EntityStore) → P s → Q (f s) s)
        → Leads P (reads f) Q
    unfolding reads
    Leads-reads f q = record {
      at = λ s b t e h. let e1 : f s ≡ b = cc in let e2 : s ≡ t = cc in rw (← e1, ← e2) (q s h);
    }

    pub Leads-pure :
        {A : Type 0} {Q : A → EntityStore → Type 0} (a : A)
        → ((s : EntityStore) → P s → Q a s)
        → Leads P (pure a) Q
    unfolding pure
    Leads-pure a q = record {
      at = λ s b t e h. let e1 : a ≡ b = cc in let e2 : s ≡ t = cc in rw (← e1, ← e2) (q s h);
    }

    pub Leads-fail : {A : Type 0} {Q : A → EntityStore → Type 0} → Leads P (fail {A = A}) Q
    unfolding fail
    Leads-fail = record { at = λ s b t e h. absurd (cc e) }

    pub Leads-saves :
        {Q : Unit {0} → EntityStore → Type 0} (f : EntityStore → EntityStore)
        → ((s : EntityStore) → P s → Q tt (f s))
        → Leads P (saves f) Q
    unfolding saves
    Leads-saves f q = record { at = λ s b t e h. let e2 : f s ≡ t = cc in rw (← e2) (q s h) }

    pub Leads-bind :
        {A B : Type 0} {R : A → EntityStore → Type 0} {Q : B → EntityStore → Type 0} (m : Handler A)
        (f : A → Handler B)
        → Leads P m R
        → ((a : A) → Leads (R a) (f a) Q)
        → Leads P (m >>= f) Q
    unfolding ◌>>=◌
    Leads-bind m f km kf = record {
      at = λ s b t e h.
          let (a, u, first, rest) = continued (m s) f b t e in
          (kf a).at u b t rest (km.at s a u first h);
    }

    -- A weaker condition before, or after.
    pub Leads-from :
        {A : Type 0} {P' : EntityStore → Type 0} {Q : A → EntityStore → Type 0} {m : Handler A}
        → ((s : EntityStore) → P s → P' s)
        → Leads P' m Q
        → Leads P m Q
    Leads-from p km = record { at = λ s b t e h. km.at s b t e (p s h) }

    pub Leads-to :
        {A : Type 0} {Q Q' : A → EntityStore → Type 0} {m : Handler A}
        → ((a : A) (s : EntityStore) → Q a s → Q' a s)
        → Leads P m Q
        → Leads P m Q'
    Leads-to q km = record { at = λ s b t e h. q b t (km.at s b t e h) }

    pub Leads-and :
        {A : Type 0} {R : EntityStore → Type 0} {Q : A → EntityStore → Type 0} {m : Handler A}
        → Leads P m Q
        → Keeps R m
        → Leads (λ s. P s × R s) m (λ a s. Q a s × R s)
    Leads-and km kr = record { at = λ s b t e h. (km.at s b t e h.0, kr.at s b t e h.1) }

    pub Leads-value_or_fail :
        {A : Type 0} {Q : A → EntityStore → Type 0} (o : Option A)
        → ((a : A) → o ≡ some a → (s : EntityStore) → P s → Q a s)
        → Leads P (value_or_fail o) Q
    Leads-value_or_fail none q = Leads-fail
    Leads-value_or_fail (some a) q = Leads-pure a (q a refl)

    pub Leads-if :
        {A : Type 0} {Q : A → EntityStore → Type 0} (b : Bool) (m n : Handler A)
        → Leads P m Q
        → Leads P n Q
        → Leads P (if b then m else n) Q
    Leads-if true m n km kn = km
    Leads-if false m n km kn = kn

    pub Leads-else :
        {A : Type 0} {Q : A → EntityStore → Type 0} (b : Bool) (m n : Handler A)
        → b ≡ false
        → Leads P n Q
        → Leads P (if b then m else n) Q
    Leads-else true m n e leads = absurd (cc e)
    Leads-else false m n e leads = leads

    pub Keeps-pure : {A : Type 0} (a : A) → Keeps P (pure a)
    Keeps-pure a = Leads-pure a λ s h. h

    pub Keeps-reads : {A : Type 0} (f : EntityStore → A) → Keeps P (reads f)
    Keeps-reads f = Leads-reads f λ s h. h

    pub Keeps-saves :
        (f : EntityStore → EntityStore) → ((s : EntityStore) → P s → P (f s)) → Keeps P (saves f)
    Keeps-saves f q = Leads-saves f q

    pub Keeps-bind :
        {A B : Type 0} (m : Handler A) (f : A → Handler B)
        → Keeps P m
        → ((a : A) → Keeps P (f a))
        → Keeps P (m >>= f)
    Keeps-bind m f km kf = Leads-bind m f km kf

    pub Keeps-if :
        {A : Type 0} (b : Bool) (m n : Handler A)
        → Keeps P m
        → Keeps P n
        → Keeps P (if b then m else n)
    Keeps-if b m n km kn = Leads-if b m n km kn

    pub Keeps-value_or_fail : {A : Type 0} (o : Option A) → Keeps P (value_or_fail o)
    Keeps-value_or_fail o = Leads-value_or_fail o λ a e s h. h

pub ruleset keeps_rules = (Keeps-pure, Keeps-reads, Keeps-bind, Keeps-if, Keeps-value_or_fail)

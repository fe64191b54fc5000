-- ===== src/Subgraph/Dict.antt =====
-- The entities of one type by their ids: `load` and `save`.
use stablecoin_sdk.Base.{
  ◌≡◌, ◌↔◌, ◌∙◌, refl, sym, ap, Bool, true, false, Option, none, some, List, [], ◌∷◌, ◌==◌, ==_iff,
  ℕ, ◌&&◌, if◌then◌else◌, Bool-cases, inl, inr, arith,
}
use stablecoin_sdk.Subgraph.Numbers.{Additive}

-- Ids are compared by `same`.
pub record Key (K : Type 0) : Type 0 where
  pub same : K → K → Bool
  pub same_iff : (a b : K) → (same a b ≡ true) ↔ (a ≡ b)

abbrev pub Dict : Type 0 → Type 0 → Type 0
Dict K V = List (K × V)

module _ {K : Type 0} ⦃key : Key K⦄ where
  same_self : (id : K) → key.same id id ≡ true
  same_self id = (key.same_iff id id).1 refl

module _ {K V : Type 0} ⦃key : Key K⦄ where
  unfoldable pub load : Dict K V → K → Option V
  load [] id = none
  load ((k, v) ∷ d) id = if key.same k id then some v else load d id

  unfoldable pub save : Dict K V → K → V → Dict K V
  save [] id v = (id, v) ∷ []
  save ((k, w) ∷ d) id v = if key.same k id then (k, v) ∷ d else (k, w) ∷ save d id v

  pub load-save :
      (d : Dict K V) (id j : K) (v : V)
      → load (save d id v) j ≡ (if key.same id j then some v else load d j)
  unfolding load save
  load-save [] id j v = refl
  load-save ((k, w) ∷ d) id j v = elim (Bool-cases (key.same k id)) [
    | inl equal ↦
        let e : k ≡ id = (key.same_iff k id).0 equal in
        elim (Bool-cases (key.same id j)) [
          | inl hit ↦ rw (equal, e, hit) refl
          | inr miss ↦ rw (equal, e, miss) refl
        ]
    | inr differ ↦ elim (Bool-cases (key.same k j)) [
      | inl equal ↦
          let e : k ≡ j = (key.same_iff k j).0 equal in
          let other : key.same id j ≡ false = go id k j differ e in
          rw (differ, load, equal, other) refl
      | inr differ' ↦ rw (differ, load, differ') (load-save d id j v)
    ]
  ]
    where
      go : (id k j : K) → key.same k id ≡ false → k ≡ j → key.same id j ≡ false
      go id k j differ e = elim (Bool-cases (key.same id j)) [
        | inl equal ↦
            let e' : id ≡ j = (key.same_iff id j).0 equal in
            absurd (cc (sym differ ∙ ap (key.same k) (e' ∙ sym e) ∙ same_self k))
        | inr other ↦ other
      ]

  pub load-save_same : (d : Dict K V) (id : K) (v : V) → load (save d id v) id ≡ some v
  load-save_same d id v = load-save d id id v ∙ rw same_self refl

  -- An entity is found under its own id.
  abbrev pub AreKeyed : (V → K) → Dict K V → Type 0
  AreKeyed id_of d = (id : K) (v : V) → load d id ≡ some v → id_of v ≡ id

  pub AreKeyed-save :
      (id_of : V → K) (d : Dict K V) (id : K) (v : V)
      → AreKeyed id_of d
      → id_of v ≡ id
      → AreKeyed id_of (save d id v)
  AreKeyed-save id_of d id v h same j w e = elim (Bool-cases (key.same id j)) [
    | inl equal ↦
        let e1 : id ≡ j = (key.same_iff id j).0 equal in
        let hit : load (save d id v) j ≡ some v = rw (load-save d id j v, equal) refl in
        let e2 : v ≡ w = cc (sym hit ∙ e) in rw (← e2) (same ∙ e1)
    | inr differ ↦
        let miss : load (save d id v) j ≡ load d j = rw (load-save d id j v, differ) refl in
        h j w (sym miss ∙ e)
  ]

  -- The sum of an amount over all entities.
  module _ {A : Type 0} (add : Additive A) (amount : K × V → A) where
    abbrev pub total : Dict K V → A
    total [] = add.zero_of
    total (x ∷ d) = add.plus (amount x) (total d)

    abbrev pub amount_or_zero : K → Option V → A
    amount_or_zero id none = add.zero_of
    amount_or_zero id (some v) = amount (id, v)

    swap_last : (a b c : A) → add.plus (add.plus a b) c ≡ add.plus (add.plus a c) b
    swap_last a b c =
        add.plus_assoc a b c ∙ ap (add.plus a) (add.plus_comm b c) ∙ sym (add.plus_assoc a c b)

    swap_ends : (a b c : A) → add.plus (add.plus a b) c ≡ add.plus (add.plus c b) a
    swap_ends a b c =
        add.plus_comm (add.plus a b) c
        ∙ ap (add.plus c) (add.plus_comm a b)
        ∙ sym (add.plus_assoc c b a)

    -- Saving an entity changes the sum by what its amount changes.
    pub total-save :
        (d : Dict K V) (id : K) (v : V)
        → add.plus (total (save d id v)) (amount_or_zero id (load d id))
          ≡ add.plus (total d) (amount (id, v))
    unfolding load save
    total-save [] id v =
        ap (λ x. add.plus x add.zero_of) (add.plus-zero (amount (id, v)))
        ∙ add.plus_comm (amount (id, v)) add.zero_of
    total-save ((k, w) ∷ d) id v = elim (Bool-cases (key.same k id)) [
      | inl equal ↦
          let e : k ≡ id = (key.same_iff k id).0 equal in
          rw (equal, e) (swap_ends (amount (id, v)) (total d) (amount (id, w)))
      | inr differ ↦
          rw (differ, load)
            (add.plus_assoc (amount (k, w)) (total (save d id v)) (amount_or_zero id (load d id))
              ∙ ap (add.plus (amount (k, w))) (total-save d id v)
              ∙ sym (add.plus_assoc (amount (k, w)) (total d) (amount (id, v))))
    ]

instance abbrev pub number_key : Key ℕ
number_key = record { same = ◌==◌; same_iff = ==_iff }

abbrev pub pair_same : ℕ × ℕ → ℕ × ℕ → Bool
pair_same (a, b) (c, d) = a == c && b == d

pub pair_same_iff : (x y : ℕ × ℕ) → (pair_same x y ≡ true) ↔ (x ≡ y)
pair_same_iff (a, b) (c, d) = (λ h. ground arith, λ h. ground arith)

instance abbrev pub pair_key : Key (ℕ × ℕ)
pair_key = record { same = pair_same; same_iff = pair_same_iff }

abbrev pub triple_same : ℕ × ℕ × ℕ → ℕ × ℕ × ℕ → Bool
triple_same (a, b, c) (d, e, f) = a == d && b == e && c == f

pub triple_same_iff : (x y : ℕ × ℕ × ℕ) → (triple_same x y ≡ true) ↔ (x ≡ y)
triple_same_iff (a, b, c) (d, e, f) = (λ h. ground arith, λ h. ground arith)

instance abbrev pub triple_key : Key (ℕ × ℕ × ℕ)
triple_key = record { same = triple_same; same_iff = triple_same_iff }

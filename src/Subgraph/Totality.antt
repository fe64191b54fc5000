-- ===== src/Subgraph/Totality.antt =====
-- When the handlers of a transfer and of a borrowing fee fail.
use Prim.Native.String.{String}
use stablecoin_sdk.Subgraph.SystemState.{or_create}
use stablecoin_sdk.Subgraph.Handler.{◌>>◌, ◌>>=◌, saves, Handler, ◌>>=◌, fail, pure, reads}
use stablecoin_sdk.Subgraph.Token.{
  zero_address, create_token_of_contract, increase_balance, decrease_supply, get_token,
  update_balance, Erc20, save_token, save_token_balance, create_token, increase_supply,
  create_token_balance, decrease_balance, get_token_balance,
}
use stablecoin_sdk.Subgraph.User.{save_user, get_user}
use stablecoin_sdk.Subgraph.Trove.{set_borrowing_fee_of_last_trove_change, save_trove_change}
use stablecoin_sdk.Subgraph.Dict.{save, number_key, load}
use stablecoin_sdk.Subgraph.Global.{
  get_last_change_sequence_number, save_global, global_or_new, get_global,
  increase_total_borrowing_fees_paid,
}
use stablecoin_sdk.Subgraph.Mappings.{transfer, handle_debt_token_borrowing_fee_paid, handle}
use stablecoin_sdk.Subgraph.Entities.{TokenEntity, TroveChangeEntity, Event, EntityStore}
use stablecoin_sdk.Subgraph.Numbers.{bigint_zero, GraphNumbers, decrement}
use stablecoin_sdk.Base.{
  ◌⊎◌, inl, inr, ◌==◌, ℕ, ◌≡◌, ◌↔◌, ◌∙◌, refl, sym, Option, none, some, Bool, true, false,
  if◌then◌else◌,
}

module _ ⦃num : GraphNumbers⦄ where
  -- The handler gives a value from every store.
  pub record IsTotal {A : Type 0} (m : Handler A) : Type 0 where
    pub gives : (s : EntityStore) → (a : A) × (t : EntityStore) × (m s ≡ some (a, t))

  IsTotal-pure : {A : Type 0} (a : A) → IsTotal (pure a)
  unfolding pure
  IsTotal-pure a = record { gives = λ s. (a, s, refl) }

  IsTotal-reads : {A : Type 0} (f : EntityStore → A) → IsTotal (reads f)
  unfolding reads
  IsTotal-reads f = record { gives = λ s. (f s, s, refl) }

  IsTotal-saves : (f : EntityStore → EntityStore) → IsTotal (saves f)
  unfolding saves
  IsTotal-saves f = record { gives = λ s. (tt, f s, refl) }

  IsTotal-bind :
      {A B : Type 0} (m : Handler A) (f : A → Handler B)
      → IsTotal m
      → ((a : A) → IsTotal (f a))
      → IsTotal (m >>= f)
  unfolding ◌>>=◌
  IsTotal-bind m f tm tf = record {
    gives = λ s.
        let (a, t, first) = tm.gives s in
        let (b, u, second) = (tf a).gives t in (b, u, rw first second);
  }

  IsTotal-if :
      {A : Type 0} (b : Bool) (m n : Handler A)
      → IsTotal m
      → IsTotal n
      → IsTotal (if b then m else n)
  IsTotal-if true m n tm tn = tm
  IsTotal-if false m n tm tn = tn

  IsTotal-or_create :
      {V : Type 0} (create : Handler V) (o : Option V)
      → IsTotal create
      → IsTotal (or_create create o)
  IsTotal-or_create create none total_create = total_create
  IsTotal-or_create create (some v) total_create = IsTotal-pure v

  IsTotal-get_user : (address : ℕ) → IsTotal (get_user address)
  unfolding get_user save_user
  IsTotal-get_user address =
      IsTotal-bind _ _ (IsTotal-reads _)
        λ o. IsTotal-or_create _ o (IsTotal-bind _ _ (IsTotal-saves _) λ _. IsTotal-pure _)

  IsTotal-get_token_balance : (token owner : ℕ) → IsTotal (get_token_balance token owner)
  unfolding get_token_balance create_token_balance save_token_balance
  IsTotal-get_token_balance token owner = IsTotal-bind _ _ (IsTotal-get_user owner) λ u.
      IsTotal-bind _ _ (IsTotal-reads _)
        λ o. IsTotal-or_create _ o (IsTotal-bind _ _ (IsTotal-saves _) λ _. IsTotal-pure _)

  -- Both halves of a transfer, once the token is there.
  abbrev halves : TokenEntity → Event → ℕ → ℕ → num.BigInt → Handler (Unit {0})
  halves token event sender recipient value = do
    token' ←
        (if sender == zero_address
          then increase_supply event.address token value
          else (do decrease_balance event.address sender value; pure token))
    if recipient == zero_address
        then decrease_supply event.address token' value
        else increase_balance event.address recipient value

  IsTotal-halves :
      (token : TokenEntity) (event : Event) (sender recipient : ℕ) (value : num.BigInt)
      → IsTotal (halves token event sender recipient value)
  unfolding increase_supply decrease_supply increase_balance decrease_balance save_token
      save_token_balance
  IsTotal-halves token event sender recipient value =
      IsTotal-bind _ _
        (IsTotal-if _ _ _ (IsTotal-bind _ _ (IsTotal-saves _) λ _. IsTotal-pure _) (
          IsTotal-bind _ _
            (IsTotal-bind _ _ (IsTotal-get_token_balance event.address sender) λ b. IsTotal-saves _)
            λ _. IsTotal-pure _))
        λ token'. IsTotal-if _ _ _ (IsTotal-saves _) (
          IsTotal-bind _ _ (IsTotal-get_token_balance event.address recipient) λ b. IsTotal-saves _)

  -- The token is not in the store, and the contract does not say its name or its symbol.
  abbrev pub IsNameless : Erc20 → ℕ → EntityStore → Type 0
  IsNameless erc20 address s =
      (load s.tokens address ≡ none) × ((erc20.name address ≡ none) ⊎ (erc20.symbol address ≡ none))

  abbrev FailsOrGives : {A : Type 0} → Handler A → EntityStore → Type 0 → Type 0
  FailsOrGives {A} m s blocked =
      ((m s ≡ none) × blocked) ⊎ (((a : A) × (t : EntityStore) × (m s ≡ some (a, t))) × (¬ blocked))

  get_token-cases :
      (erc20 : Erc20) (address : ℕ) (s : EntityStore)
      → FailsOrGives (get_token erc20 address) s (IsNameless erc20 address s)
  unfolding get_token create_token_of_contract create_token save_token ◌>>=◌ pure fail reads saves
  get_token-cases erc20 address s =
      go (load s.tokens address) (erc20.name address) (erc20.symbol address) refl refl refl
    where
      go :
          (o : Option TokenEntity) (name symbol : Option String)
          → load s.tokens address ≡ o
          → erc20.name address ≡ name
          → erc20.symbol address ≡ symbol
          → FailsOrGives (get_token erc20 address) s (IsNameless erc20 address s)
      go (some token) name symbol e n y =
          inr ((token, s, rw e refl), λ (missing, _). cc (sym e ∙ missing))
      go none none symbol e n y = inl (rw (e, n) refl, (e, inl n))
      go none (some name) none e n y = inl (rw (e, n, y) refl, (e, inr y))
      go none (some name) (some symbol) e n y =
          let token : TokenEntity = record {
            name = name;
            symbol = symbol;
            total_supply = bigint_zero;
          } in
          inr (
            (token, record s { tokens = save s.tokens address token }, rw (e, n, y) refl),
            λ (_, nameless). elim nameless [
              | inl nothing ↦ cc (sym n ∙ nothing)
              | inr nothing ↦ cc (sym y ∙ nothing)
            ],
          )

  pub transfer-cases :
      (erc20 : Erc20) (event : Event) (sender recipient : ℕ) (value : num.BigInt) (s : EntityStore)
      → FailsOrGives
          (handle erc20 event (transfer sender recipient value))
          s
          (IsNameless erc20 event.address s)
  unfolding handle update_balance ◌>>=◌
  transfer-cases erc20 event sender recipient value s =
      elim (get_token-cases erc20 event.address s) [
        | inl (failed, nameless) ↦ inl (rw failed refl, nameless)
        | inr ((token, t, found), named) ↦
            let (a, u, done) = (IsTotal-halves token event sender recipient value).gives t in
            inr ((a, u, rw found done), named)
      ]

  -- The handler of a transfer, be it a mint, a burn or a payment, fails exactly when the token is not yet
  -- in the store and the contract's call of `name` or of `symbol` reverts. From every other store it
  -- succeeds.
  pub transfer-none_iff :
      (erc20 : Erc20) (event : Event) (sender recipient : ℕ) (value : num.BigInt) (s : EntityStore)
      → (handle erc20 event (transfer sender recipient value) s ≡ none) ↔ (
          (load s.tokens event.address ≡ none)
          × ((erc20.name event.address ≡ none) ⊎ (erc20.symbol event.address ≡ none)))
  transfer-none_iff erc20 event sender recipient value s =
      elim (transfer-cases erc20 event sender recipient value s) [
        | inl (failed, nameless) ↦ (λ h. nameless, λ h. failed)
        | inr ((a, t, done), named) ↦ (λ h. absurd (cc (sym done ∙ h)), λ h. absurd (named h))
      ]

  -- The handler of a borrowing fee fails exactly when the last change is not a change of a trove.
  pub borrowing_fee-none_iff :
      (fee : num.BigInt) (s : EntityStore)
      → (handle_debt_token_borrowing_fee_paid fee s ≡ none)
        ↔ (load s.trove_changes (decrement (global_or_new s.global).change_count) ≡ none)
  unfolding handle_debt_token_borrowing_fee_paid set_borrowing_fee_of_last_trove_change
      get_last_change_sequence_number get_global save_trove_change
      increase_total_borrowing_fees_paid save_global ◌>>=◌ pure fail reads saves
  borrowing_fee-none_iff fee s =
      go (load s.trove_changes (decrement (global_or_new s.global).change_count)) refl
    where
      go :
          (o : Option TroveChangeEntity)
          → load s.trove_changes (decrement (global_or_new s.global).change_count) ≡ o
          → (handle_debt_token_borrowing_fee_paid fee s ≡ none)
            ↔ (load s.trove_changes (decrement (global_or_new s.global).change_count) ≡ none)
      go none e = (λ h. e, λ h. rw e refl)
      go (some x) e = (λ h. let bad = rw e at h in absurd (cc bad), λ h. absurd (cc (sym e ∙ h)))

-- ===== src/Subgraph/WellFormed/Globals.antt =====
-- The changes of the global entity, entities/Global.ts.
use stablecoin_sdk.Base.{ℕ, ◌≡◌, refl, some, arith}
use stablecoin_sdk.Subgraph.Numbers.{GraphNumbers, increment}
use stablecoin_sdk.Subgraph.Dict.{Dict}
use stablecoin_sdk.Subgraph.Entities.{
  Global, SystemState, User, StakeEntity, TokenEntity, TokenBalance,
}
use stablecoin_sdk.Subgraph.Handler.{
  Handler, Keeps, Leads-bind, Leads-reads, Leads-saves, Keeps-pure, Keeps-bind, Keeps-reads, ◌>>=◌,
  ◌>>◌,
}
use stablecoin_sdk.Subgraph.Global.{
  global_or_new, get_global, save_global, change_global, get_system_state_sequence_number,
  get_transaction_sequence_number, get_change_sequence_number, get_last_change_sequence_number,
  get_liquidation_sequence_number, get_redemption_sequence_number, update_total_redistributed,
  increase_number_of_open_troves, increase_number_of_liquidated_troves,
  decrease_number_of_liquidated_troves, increase_number_of_redeemed_troves,
  decrease_number_of_redeemed_troves, increase_number_of_troves_closed_by_owner,
  decrease_number_of_troves_closed_by_owner, increase_total_number_of_protocol_token_stakes,
  increase_number_of_active_protocol_token_stakes, decrease_number_of_active_protocol_token_stakes,
  increase_total_borrowing_fees_paid,
}
use stablecoin_sdk.Subgraph.WellFormed.{IsCounted, IsWithin, Within}

module _ ⦃num : GraphNumbers⦄ where
  -- The change leaves the current system state, and counts a trove as often as it gives it a status.
  abbrev pub IsTame : (Global → Global) → Type 0
  IsTame f =
      (g : Global)
      → ((f g).current_system_state ≡ g.current_system_state) × (IsCounted g → IsCounted (f g))

  module _ {E : Dict ℕ User → Dict ℕ StakeEntity → Type 0} {dt : ℕ → num.BigInt} where
    pub IsWithin-tame :
        {states : Dict ℕ SystemState} {users : Dict ℕ User} {stakes : Dict ℕ StakeEntity}
        {tokens : Dict ℕ TokenEntity} {balances : Dict (ℕ × ℕ) TokenBalance} (f : Global → Global)
        (tame : IsTame f) (g : Global)
        → IsWithin E dt g states users stakes tokens balances
        → IsWithin E dt (f g) states users stakes tokens balances
    IsWithin-tame f tame g h = record {
      counted = (tame g).1 h.counted;
      conserved = h.conserved;
      states_keyed = h.states_keyed;
      stakes_keyed = h.stakes_keyed;
      linked = h.linked;
      owned = h.owned;
      extra = h.extra;
      current = rw ((tame g).0) h.current;
    }

    pub Keeps-save_global :
        (f : Global → Global)
        → IsTame f
        → {A : Type 0} (next : Global → Handler A) → ((g : Global) → Keeps (Within E dt) (next g))
        → Keeps (Within E dt) (get_global >>= λ g. save_global (f g) >> next g)
    unfolding get_global save_global
    Keeps-save_global f tame next keeps =
        Leads-bind {R = λ g s. Within E dt s × (g ≡ global_or_new s.global)} get_global
          (λ g. save_global (f g) >> next g)
          (Leads-reads (λ s. global_or_new s.global) λ s h. (h, refl))
          λ g.
            Leads-bind (save_global (f g)) (λ _. next g)
              (Leads-saves (λ s. record s { global = some (f g) })
                λ s h. IsWithin-tame f tame g (rw h.1 h.0))
              λ _. keeps g

    pub Keeps-change_global :
        (f : Global → Global) → IsTame f → Keeps (Within E dt) (change_global f)
    unfolding get_global save_global
    Keeps-change_global f tame =
        Leads-bind {R = λ g s. Within E dt s × (g ≡ global_or_new s.global)} get_global
          (λ g. save_global (f g)) (Leads-reads (λ s. global_or_new s.global) λ s h. (h, refl))
          λ g.
            Leads-saves (λ s. record s { global = some (f g) })
              λ s h. IsWithin-tame f tame g (rw h.1 h.0)

    pub Keeps-get_transaction_sequence_number : Keeps (Within E dt) get_transaction_sequence_number
    unfolding get_transaction_sequence_number
    Keeps-get_transaction_sequence_number =
        Keeps-save_global (λ g. record g { transaction_count = increment g.transaction_count })
          (λ g. (refl, λ h. h)) _ λ g. Keeps-pure _

    pub Keeps-get_change_sequence_number : Keeps (Within E dt) get_change_sequence_number
    unfolding get_change_sequence_number
    Keeps-get_change_sequence_number =
        Keeps-save_global (λ g. record g { change_count = increment g.change_count })
          (λ g. (refl, λ h. h)) _ λ g. Keeps-pure _

    pub Keeps-get_system_state_sequence_number :
        Keeps (Within E dt) get_system_state_sequence_number
    unfolding get_system_state_sequence_number
    Keeps-get_system_state_sequence_number =
        Keeps-save_global (λ g. record g { system_state_count = increment g.system_state_count })
          (λ g. (refl, λ h. h)) _ λ g. Keeps-pure _

    pub Keeps-get_liquidation_sequence_number : Keeps (Within E dt) get_liquidation_sequence_number
    unfolding get_liquidation_sequence_number
    Keeps-get_liquidation_sequence_number =
        Keeps-save_global (λ g. record g { liquidation_count = increment g.liquidation_count })
          (λ g. (refl, λ h. h)) _ λ g. Keeps-pure _

    pub Keeps-get_redemption_sequence_number : Keeps (Within E dt) get_redemption_sequence_number
    unfolding get_redemption_sequence_number
    Keeps-get_redemption_sequence_number =
        Keeps-save_global (λ g. record g { redemption_count = increment g.redemption_count })
          (λ g. (refl, λ h. h)) _ λ g. Keeps-pure _

    pub Keeps-increase_number_of_open_troves : Keeps (Within E dt) increase_number_of_open_troves
    unfolding increase_number_of_open_troves
    Keeps-increase_number_of_open_troves = Keeps-change_global _ λ g. (refl, λ h. omega arith)

    pub Keeps-increase_number_of_liquidated_troves :
        Keeps (Within E dt) increase_number_of_liquidated_troves
    unfolding increase_number_of_liquidated_troves
    Keeps-increase_number_of_liquidated_troves = Keeps-change_global _ λ g. (refl, λ h. omega arith)

    pub Keeps-decrease_number_of_liquidated_troves :
        Keeps (Within E dt) decrease_number_of_liquidated_troves
    unfolding decrease_number_of_liquidated_troves
    Keeps-decrease_number_of_liquidated_troves = Keeps-change_global _ λ g. (refl, λ h. omega arith)

    pub Keeps-increase_number_of_redeemed_troves :
        Keeps (Within E dt) increase_number_of_redeemed_troves
    unfolding increase_number_of_redeemed_troves
    Keeps-increase_number_of_redeemed_troves = Keeps-change_global _ λ g. (refl, λ h. omega arith)

    pub Keeps-decrease_number_of_redeemed_troves :
        Keeps (Within E dt) decrease_number_of_redeemed_troves
    unfolding decrease_number_of_redeemed_troves
    Keeps-decrease_number_of_redeemed_troves = Keeps-change_global _ λ g. (refl, λ h. omega arith)

    pub Keeps-increase_number_of_troves_closed_by_owner :
        Keeps (Within E dt) increase_number_of_troves_closed_by_owner
    unfolding increase_number_of_troves_closed_by_owner
    Keeps-increase_number_of_troves_closed_by_owner =
        Keeps-change_global _ λ g. (refl, λ h. omega arith)

    pub Keeps-decrease_number_of_troves_closed_by_owner :
        Keeps (Within E dt) decrease_number_of_troves_closed_by_owner
    unfolding decrease_number_of_troves_closed_by_owner
    Keeps-decrease_number_of_troves_closed_by_owner =
        Keeps-change_global _ λ g. (refl, λ h. omega arith)

    pub Keeps-increase_total_number_of_protocol_token_stakes :
        Keeps (Within E dt) increase_total_number_of_protocol_token_stakes
    unfolding increase_total_number_of_protocol_token_stakes
    Keeps-increase_total_number_of_protocol_token_stakes = Keeps-change_global _ λ g. (refl, λ h. h)

    pub Keeps-increase_number_of_active_protocol_token_stakes :
        Keeps (Within E dt) increase_number_of_active_protocol_token_stakes
    unfolding increase_number_of_active_protocol_token_stakes
    Keeps-increase_number_of_active_protocol_token_stakes =
        Keeps-change_global _ λ g. (refl, λ h. h)

    pub Keeps-decrease_number_of_active_protocol_token_stakes :
        Keeps (Within E dt) decrease_number_of_active_protocol_token_stakes
    unfolding decrease_number_of_active_protocol_token_stakes
    Keeps-decrease_number_of_active_protocol_token_stakes =
        Keeps-change_global _ λ g. (refl, λ h. h)

    pub Keeps-increase_total_borrowing_fees_paid :
        (fee : num.BigInt) → Keeps (Within E dt) (increase_total_borrowing_fees_paid fee)
    unfolding increase_total_borrowing_fees_paid
    Keeps-increase_total_borrowing_fees_paid fee = Keeps-change_global _ λ g. (refl, λ h. h)

    pub Keeps-update_total_redistributed :
        (l_fil l_debt : num.BigInt) → Keeps (Within E dt) (update_total_redistributed l_fil l_debt)
    unfolding update_total_redistributed
    Keeps-update_total_redistributed l_fil l_debt = Keeps-change_global _ λ g. (refl, λ h. h)

    pub Keeps-get_global : Keeps (Within E dt) get_global
    unfolding get_global
    Keeps-get_global = Keeps-reads _

    pub Keeps-get_last_change : Keeps (Within E dt) get_last_change_sequence_number
    unfolding get_last_change_sequence_number
    Keeps-get_last_change = Keeps-bind get_global _ Keeps-get_global λ g. Keeps-pure _

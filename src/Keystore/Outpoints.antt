-- ===== src/Keystore/Outpoints.antt =====
-- keystore.go: the keys and sets by which recoverable outpoints are compared.
use symbiont_wallet.Base.{
  Bool, true, false, not, ◌||◌, List, [], ◌∷◌, ◌++◌, length, keep, ◌==◌, if◌then◌else◌,
}
use symbiont_wallet.Base.Bytes.{Bytes}
use symbiont_wallet.Base.Decimal.{decimal, decimal_ℤ}
use symbiont_wallet.Base.Keys.{has_key}
use symbiont_wallet.Keystore.Types.{RecoveryOutpoint}

-- `recoveryOutpointKey`: the text `txid:vout:amount`.
unfoldable pub recovery_outpoint_key : RecoveryOutpoint → Bytes
recovery_outpoint_key o = o.txid ++ (b':' ∷ (decimal o.vout ++ (b':' ∷ decimal_ℤ o.amount_sats)))

abbrev pub add_key : Bytes → List Bytes → List Bytes
add_key k s = if has_key k s then s else k ∷ s

-- `recoveryOutpointSet`.
unfoldable pub recovery_outpoint_set : List RecoveryOutpoint → List Bytes
recovery_outpoint_set [] = []
recovery_outpoint_set (o ∷ os) = add_key (recovery_outpoint_key o) (recovery_outpoint_set os)

-- The loop of `recoveryOutpointSubset`.
unfoldable pub all_authorized : List Bytes → List Bytes → List RecoveryOutpoint → Bool
all_authorized allowed seen [] = true
all_authorized allowed seen (o ∷ os) =
    let key = recovery_outpoint_key o in
    let rest = all_authorized allowed (key ∷ seen) os in
    if has_key key seen then false else if has_key key allowed then rest else false

-- `recoveryOutpointSubset`.
unfoldable pub recovery_outpoint_subset : List RecoveryOutpoint → List RecoveryOutpoint → Bool
unfolding all_authorized recovery_outpoint_set
recovery_outpoint_subset authorized [] = false
recovery_outpoint_subset authorized (o ∷ os) =
    let set = recovery_outpoint_set authorized in
    if length set == length authorized then all_authorized set [] (o ∷ os) else false

-- The loop of `MarkRecoveryPendingAndReserveChange` that fills `remaining`.
unfoldable pub remaining_outpoints :
    List RecoveryOutpoint → List RecoveryOutpoint → List RecoveryOutpoint
remaining_outpoints authorized selected =
    keep (λ o. not (has_key (recovery_outpoint_key o) (recovery_outpoint_set selected))) authorized

-- Whether one of the pending outpoints is still among the current ones.
unfoldable pub any_present : List Bytes → List RecoveryOutpoint → Bool
any_present set [] = false
any_present set (o ∷ os) = has_key (recovery_outpoint_key o) set || any_present set os

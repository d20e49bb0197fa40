-- ===== src/Keystore/Life.antt =====
-- What no chain of steps can undo: the order of the states, RETIRED, the identity of an address,
-- its key material and the one transaction that spends it.
use symbiont_wallet.Base.{ℕ, ◌≤◌, ◌<◌, ◌≡◌, ◌≢◌, ◌⊎◌, inl, inr, refl, ap, ◌∙◌, true, [], arith}
use symbiont_wallet.Keystore.Types.{
  AddressState, fresh, funded, spend_pending, spent, retired, AddressRecord,
}
use symbiont_wallet.Keystore.Lifecycle.{has_outpoints}
use symbiont_wallet.Keystore.Steps.{
  Step, fund, reserve, sign, confirm, observe_pending, observe, recover, retire, Reach, here, next,
}

-- The place of a state in FRESH → FUNDED → SPEND_PENDING → SPENT → RETIRED.
abbrev pub rank : AddressState → ℕ
rank fresh = 0
rank funded = 1
rank spend_pending = 2
rank spent = 3
rank retired = 4

-- From `r` to `r'` a life went forward only.
pub record OneWay (r r' : AddressRecord) : Type 0 where
  pub index_kept : r'.index ≡ r.index
  pub address_kept : r'.address ≡ r.address
  pub public_key_kept : r'.public_key ≡ r.public_key
  pub forward : rank r.state ≤ rank r'.state
  pub retired_final : r.state ≡ retired → r' ≡ r
  pub key_kept : r'.state ≢ retired → r'.enc_seed_blob ≡ r.enc_seed_blob
  pub key_erased : r.state ≢ retired → r'.state ≡ retired → r'.enc_seed_blob ≡ []
  pub signed_once : 2 ≤ rank r.state → r'.spend_txid ≡ r.spend_txid

pub Step-OneWay : {r r' : AddressRecord} → Step r r' → OneWay r r'
Step-OneWay (fund s) = ground arith
Step-OneWay (reserve s f) = ground arith
Step-OneWay (sign txid s) = ground arith
Step-OneWay (confirm s) = ground arith
Step-OneWay (observe_pending s) = ground arith
Step-OneWay (observe current mature s) = ground arith
Step-OneWay (recover txid outpoints s i b u) = ground arith
Step-OneWay (retire s b i) = ground arith

OneWay-refl : (r : AddressRecord) → OneWay r r
OneWay-refl r = ground arith

not_retired_before : (s t : AddressState) → rank s ≤ rank t → t ≢ retired → s ≢ retired
not_retired_before s t h n e = ground arith

state_split : (s : AddressState) → (s ≡ retired) ⊎ (s ≢ retired)
state_split retired = inl refl
state_split fresh = inr (λ e. cc)
state_split _ = inr (λ e. cc)

OneWay-trans : {r s t : AddressRecord} → OneWay r s → OneWay s t → OneWay r t
OneWay-trans {r} {s} {t} p q = record {
  index_kept = q.index_kept ∙ p.index_kept;
  address_kept = q.address_kept ∙ p.address_kept;
  public_key_kept = q.public_key_kept ∙ p.public_key_kept;
  forward = omega (arith, p.forward, q.forward);
  retired_final = λ e.
      let same = p.retired_final e in
      q.retired_final (ap (λ (x : AddressRecord). x.state) same ∙ e) ∙ same;
  key_kept = λ n. q.key_kept n ∙ p.key_kept (not_retired_before s.state t.state q.forward n);
  key_erased = λ n e. erased n e;
  signed_once = λ h. q.signed_once (omega (arith, p.forward)) ∙ p.signed_once h;
}
  where
    erased : r.state ≢ retired → t.state ≡ retired → t.enc_seed_blob ≡ []
    erased n e = elim (state_split s.state) [
      | inl was ↦
          ap (λ (x : AddressRecord). x.enc_seed_blob) (q.retired_final was) ∙ p.key_erased n was
      | inr other ↦ q.key_erased other e
    ]

pub Reach-OneWay : {r r' : AddressRecord} → Reach r r' → OneWay r r'
Reach-OneWay {r} here = OneWay-refl r
Reach-OneWay (next p st) = OneWay-trans (Reach-OneWay p) (Step-OneWay st)

-- What every stored record satisfies between two operations.
pub record IsSound (r : AddressRecord) : Type 0 where
  pub reserved_fresh : r.reserved ≡ true → r.state ≡ fresh
  pub unsigned : rank r.state < 2 → r.spend_txid ≡ []
  pub balance_spent : r.has_recoverable_balance ≡ true → r.state ≡ spent
  pub balance_outpoints : r.has_recoverable_balance ≡ has_outpoints r.recoverable_outpoints
  pub pending_spent : r.recovery_pending_outpoints ≢ [] → r.state ≡ spent
  pub retired_erased : r.state ≡ retired → r.enc_seed_blob ≡ []

pub Step-IsSound : {r r' : AddressRecord} → Step r r' → IsSound r → IsSound r'
Step-IsSound (fund s) h = ground arith
Step-IsSound (reserve s f) h = ground arith
Step-IsSound (sign txid s) h = ground arith
Step-IsSound (confirm s) h = ground arith
Step-IsSound (observe_pending s) h = ground arith
Step-IsSound (observe current mature s) h = ground arith
Step-IsSound (recover txid outpoints s i b u) h = ground arith
Step-IsSound (retire s b i) h = ground arith

pub Reach-IsSound : {r r' : AddressRecord} → Reach r r' → IsSound r → IsSound r'
Reach-IsSound here h = h
Reach-IsSound (next p st) h = Step-IsSound st (Reach-IsSound p h)

-- ===== src/Keystore/Steps.antt =====
-- The life of an address record as a step relation: every write that keystore.go makes to a stored
-- record, with its condition.
use symbiont_wallet.Base.{
  ◌≡◌, refl, Bool, true, false, Option, none, some, List, [], arith, Bool-cases, inl, inr, subst,
}
use symbiont_wallet.Base.Bytes.{Bytes, bytes_eq, bytes_eq_iff, bytes_eq_refl}
use symbiont_wallet.Keystore.Types.{
  fresh, funded, spend_pending, spent, retired, AddressRecord, RecoveryOutpoint,
}
use symbiont_wallet.Keystore.Bolt.{Entries, lookup, insert}
use symbiont_wallet.Keystore.Outpoints.{recovery_outpoint_subset}
use symbiont_wallet.Keystore.Recovery.{still_pending, observed, recovering}
use symbiont_wallet.Keystore.Rows.{lookup-insert}

pub data Step (r : AddressRecord) : AddressRecord → Type 0 where
  fund : r.state ≡ fresh → Step r (record r { state = funded; reserved = false })
  reserve : r.state ≡ fresh → r.reserved ≡ false → Step r (record r { reserved = true })
  sign :
      (txid : Bytes)
      → r.state ≡ funded
      → Step r (record r { state = spend_pending; spend_txid = txid })
  confirm : r.state ≡ spend_pending → Step r (record r { state = spent })
  observe_pending : r.state ≡ spent → Step r (still_pending r)
  observe :
      (current : List RecoveryOutpoint) (mature : Bool)
      → r.state ≡ spent
      → Step r (observed current mature r)
  recover :
      (txid : Bytes) (outpoints : List RecoveryOutpoint)
      → r.state ≡ spent
      → r.recovery_pending_outpoints ≡ []
      → r.has_recoverable_balance ≡ true
      → recovery_outpoint_subset r.recoverable_outpoints outpoints ≡ true
      → Step r (recovering txid outpoints r)
  retire :
      r.state ≡ spent
      → r.has_recoverable_balance ≡ false
      → r.recovery_pending_outpoints ≡ []
      → Step r (record r { state = retired; enc_seed_blob = [] })

-- Any number of steps.
pub data Reach (r : AddressRecord) : AddressRecord → Type 0 where
  here : Reach r r
  next : {s t : AddressRecord} → Reach r s → Step s t → Reach r t

pub Reach-trans : {r s t : AddressRecord} → Reach r s → Reach s t → Reach r t
Reach-trans p here = p
Reach-trans p (next q st) = next (Reach-trans p q) st

-- One key before and after: nothing appears or goes, and what is there has come by steps.
abbrev pub Lives : Option AddressRecord → Option AddressRecord → Type 0
Lives none none = Unit
Lives none (some r') = ⊥
Lives (some r) none = ⊥
Lives (some r) (some r') = Reach r r'

abbrev pub Evolves : Entries AddressRecord → Entries AddressRecord → Type 0
Evolves m m' = (k : Bytes) → Lives (lookup k m) (lookup k m')

-- Every stored record is still stored, at its key, and has come there by steps.
abbrev pub Persists : Entries AddressRecord → Entries AddressRecord → Type 0
Persists m m' =
    (k : Bytes) (r : AddressRecord)
    → lookup k m ≡ some r
    → (r' : AddressRecord) × (lookup k m' ≡ some r') × Reach r r'

Lives-refl : (o : Option AddressRecord) → Lives o o
Lives-refl none = tt
Lives-refl (some r) = here

Lives-trans : (o o' o'' : Option AddressRecord) → Lives o o' → Lives o' o'' → Lives o o''
Lives-trans none none none p q = tt
Lives-trans none none (some r) p q = q
Lives-trans none (some r) o p q = absurd p
Lives-trans (some r) none o p q = absurd p
Lives-trans (some r) (some r') none p q = absurd q
Lives-trans (some r) (some r') (some r'') p q = Reach-trans p q

Lives-some :
    (o : Option AddressRecord) (r : AddressRecord)
    → Lives (some r) o
    → (r' : AddressRecord) × (o ≡ some r') × Reach r r'
Lives-some none r p = absurd p
Lives-some (some r') r p = (r', refl, p)

Lives-back :
    (o : Option AddressRecord) (r' : AddressRecord)
    → Lives o (some r')
    → (r : AddressRecord) × (o ≡ some r) × Reach r r'
Lives-back none r' p = absurd p
Lives-back (some r) r' p = (r, refl, p)

pub Evolves-refl : (m : Entries AddressRecord) → Evolves m m
Evolves-refl m k = Lives-refl (lookup k m)

pub Evolves-of_eq : (m m' : Entries AddressRecord) → m' ≡ m → Evolves m m'
Evolves-of_eq m m' h = rw h (Evolves-refl m)

pub Evolves-trans :
    (m m' m'' : Entries AddressRecord) → Evolves m m' → Evolves m' m'' → Evolves m m''
Evolves-trans m m' m'' f g k = Lives-trans _ _ _ (f k) (g k)

pub Evolves-Persists : (m m' : Entries AddressRecord) → Evolves m m' → Persists m m'
Evolves-Persists m m' f k r e =
    Lives-some (lookup k m') r (subst (λ o. Lives o (lookup k m')) e (f k))

-- A record that is stored afterwards was stored before.
pub Evolves-back :
    (m m' : Entries AddressRecord) (k : Bytes) (r' : AddressRecord)
    → Evolves m m'
    → lookup k m' ≡ some r'
    → (r : AddressRecord) × (lookup k m ≡ some r) × Reach r r'
Evolves-back m m' k r' f e = Lives-back (lookup k m) r' (subst (λ o. Lives (lookup k m) o) e (f k))

pub Persists-trans :
    (m m' m'' : Entries AddressRecord) → Persists m m' → Persists m' m'' → Persists m m''
Persists-trans m m' m'' f g k r e =
    let (r', e', p) = f k r e in let (r'', e'', q) = g k r' e' in (r'', e'', Reach-trans p q)

-- A step at one key.
pub Evolves-insert :
    (key : Bytes) (rec rec' : AddressRecord) (m : Entries AddressRecord)
    → lookup key m ≡ some rec
    → Step rec rec'
    → Evolves m (insert key rec' m)
Evolves-insert key rec rec' m at st k = elim (Bool-cases (bytes_eq k key)) [
  | inl same ↦ rw ((bytes_eq_iff k key).0 same, lookup-insert, bytes_eq_refl key, at) (next here st)
  | inr other ↦ rw (lookup-insert, other) (Lives-refl (lookup k m))
]

-- A record at a new key.
pub Persists-insert_new :
    (key : Bytes) (rec : AddressRecord) (m : Entries AddressRecord)
    → lookup key m ≡ none
    → Persists m (insert key rec m)
Persists-insert_new key rec m at k r e =
    (r, ground (arith, lookup-insert k key rec m, bytes_eq_iff k key), here)

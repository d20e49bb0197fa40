-- ===== src/Gui/Tracked.antt =====
-- main.go: what a send remembers of the events behind it.
use symbiont_wallet.Base.{
  ◌≡◌, refl, sym, ap, ◌∙◌, subst, ◌⊎◌, ◌≢◌, true, false, not, inl, inr, Option, none, some, List,
  [], ◌∷◌, length, ◌==◌, Result, ok, err, Bool-cases, arith,
}
use symbiont_wallet.Base.Bytes.{Bytes, bytes_eq, bytes_eq_iff}
use symbiont_wallet.Node.Call as N
use symbiont_wallet.Node.Methods.{MempoolAcceptResult}
use symbiont_wallet.Gui.Gate.{
  Gate, reset, record_mempool_result, allows, SignedContext, Session, Event, signed, tested,
  tested_gate, after,
}

-- This event signs this transaction.
abbrev pub Signs : SignedContext → Event → Type 0
Signs c (signed d) = d ≡ c
Signs c _ = ⊥

-- This event is a test of these bytes that the node answers with its permission.
abbrev pub Permits : Bytes → Session → Event → Type 0
Permits raw s (tested (some (ok r))) = (s.signed_hex ≡ raw) × (r.allowed ≡ true)
Permits raw s _ = ⊥

-- Some event signed it.
abbrev pub WasSigned : SignedContext → List Event → Type 0
WasSigned c [] = ⊥
WasSigned c (e ∷ es) = Signs c e ⊎ WasSigned c es

-- Some event was a test of these bytes, as they were signed at the time, that the node permitted.
abbrev pub WasPermitted : Bytes → List Event → Type 0
WasPermitted raw [] = ⊥
WasPermitted raw (e ∷ es) = Permits raw ((after es).0) e ⊎ WasPermitted raw es

-- What holds of a session after some events.
pub record IsTracked (es : List Event) (s : Session) : Type 0 where
  pub approved : (s.gate.approved_hex ≡ []) ⊎ WasPermitted (s.gate.approved_hex) es
  pub button : s.gate.enabled ≡ not (length (s.gate.approved_hex) == 0)
  pub context : (s.context.raw_hex ≡ []) ⊎ WasSigned (s.context) es
  pub dialog : (c : SignedContext) → s.dialog ≡ some c → (c.raw_hex ≡ []) ⊎ WasSigned c es

-- An event that signs and permits nothing keeps all of it.
pub later : (e : Event) (es : List Event) (s : Session) → IsTracked es s → IsTracked (e ∷ es) s
later e es s t = record {
  approved = elim (t.approved) [ inl h ↦ inl h | inr h ↦ inr (inr h) ];
  button = t.button;
  context = elim (t.context) [ inl h ↦ inl h | inr h ↦ inr (inr h) ];
  dialog = λ c h. elim (t.dialog c h) [ inl k ↦ inl k | inr k ↦ inr (inr k) ];
}

-- With another gate, dialog or signed bytes.
pub with_gate :
    (es : List Event) (s : Session) (g : Gate)
    → IsTracked es s
    → (g.approved_hex ≡ []) ⊎ WasPermitted (g.approved_hex) es
    → g.enabled ≡ not (length (g.approved_hex) == 0)
    → IsTracked es (record s { gate = g })
with_gate es s g t a b = record { approved = a; button = b; context = t.context; dialog = t.dialog }

closed :
    (es : List Event) (s : Session)
    → IsTracked es s
    → IsTracked es (record s { gate = reset (s.gate) })
unfolding reset
closed es s t = with_gate es s (reset (s.gate)) t (inl refl) refl

-- What a gate may hold after some events.
abbrev pub IsSound : List Event → Gate → Type 0
IsSound es g =
    ((g.approved_hex ≡ []) ⊎ WasPermitted (g.approved_hex) es)
    × (g.enabled ≡ not (length (g.approved_hex) == 0))

abbrev pub shut : Gate
shut = record { approved_hex = []; enabled = false }

tested_gate_cases :
    (r : MempoolAcceptResult) (raw : Bytes) (g : Gate)
    → (tested_gate (some (ok r)) raw g ≡ shut)
      ⊎ ((r.allowed ≡ true)
          × (not (length raw == 0) ≡ true)
          × (tested_gate (some (ok r)) raw g ≡ record { approved_hex = raw; enabled = true }))
unfolding tested_gate reset record_mempool_result
tested_gate_cases r raw g = elim (Bool-cases (length raw == 0)) [
  | inl e ↦ inl (ground arith)
  | inr e ↦ elim (Bool-cases (r.allowed)) [
    | inl a ↦ inr (a, ap not e, ground arith)
    | inr a ↦ inl (ground arith)
  ]
]

-- The gate that a test leaves.
pub tested_gate_ok :
    (reply : Option (Result N.Error MempoolAcceptResult)) (es : List Event) (g : Gate)
    → IsSound (tested reply ∷ es) (tested_gate reply ((after es).0.signed_hex) g)
tested_gate_ok none es g = unfold tested_gate reset in (inl refl, refl)
tested_gate_ok (some (err e)) es g = unfold tested_gate reset in (inl refl, refl)
tested_gate_ok (some (ok r)) es g =
    let raw = (after es).0.signed_hex in
    elim (tested_gate_cases r raw g) [
      | inl e ↦ subst (IsSound (tested (some (ok r)) ∷ es)) (sym e) (inl refl, refl)
      | inr (a, full, e) ↦
          subst (IsSound (tested (some (ok r)) ∷ es)) (sym e) (inr (inl (refl, a)), sym full)
    ]

-- What is sent.
abbrev pub IsSendable : List Event → SignedContext → Type 0
IsSendable es c = WasSigned c es × WasPermitted (c.raw_hex) es

allows_ok : (raw : Bytes) (g : Gate) → allows raw g ≡ true → (raw ≢ []) × (g.approved_hex ≡ raw)
unfolding allows
allows_ok [] g h = absurd (ground arith)
allows_ok (b ∷ bs) g h = (λ k. ground arith, ground (arith, bytes_eq_iff (g.approved_hex) (b ∷ bs)))

-- What the gate lets through was signed and permitted.
pub sendable :
    (es : List Event) (s : Session) (c : SignedContext)
    → IsTracked es s
    → (c.raw_hex ≡ []) ⊎ WasSigned c es
    → allows (s.signed_hex) (s.gate) ≡ true
    → bytes_eq (c.raw_hex) (s.signed_hex) ≡ true
    → IsSendable es c
sendable es s c t kept h e =
    let (full, same) = allows_ok (s.signed_hex) (s.gate) h in
    let raw : c.raw_hex ≡ s.signed_hex = ground (arith, bytes_eq_iff (c.raw_hex) (s.signed_hex)) in
    (
      elim kept [ inl k ↦ absurd (full (sym raw ∙ k)) | inr k ↦ k ],
      elim (t.approved) [
        | inl k ↦ absurd (full (sym same ∙ k))
        | inr k ↦ subst (λ b. WasPermitted b es) (same ∙ sym raw) k
      ],
    )

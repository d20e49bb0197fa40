-- ===== src/Gui/Broadcasts.antt =====
-- main.go: what the buttons of a send ever give to the node.
use symbiont_wallet.Base.{
  ◌≡◌, refl, subst, ◌⊎◌, Bool, true, false, not, ◌||◌, All-append, All-imp, Result-cases, inl, inr,
  none, some, List, [], ◌∷◌, All, Result, Bool-cases, Option-cases, arith,
}
use symbiont_wallet.Base.Bytes.{Bytes, bytes_eq}
use symbiont_wallet.Node.Call as N
use symbiont_wallet.Gui.Gate.{
  reset, allows, SignedContext, Session, Event, previewed, signed, tested, pressed, answered,
  preview_pressed, sign_confirmed, tested_gate, test_pressed, broadcast_pressed, send_confirmed,
  dialog_answered, handle, after,
}
use symbiont_wallet.Gui.Tracked.{
  WasSigned, IsTracked, later, with_gate, IsSound, shut, tested_gate_ok, IsSendable, sendable,
}

abbrev shut_session : Session → Session
shut_session s = record s { gate = shut }

shut_session-IsTracked :
    (es : List Event) (s : Session) → IsTracked es s → IsTracked es (shut_session s)
shut_session-IsTracked es s t = with_gate es s shut t (inl refl) refl

broadcast_pressed_ok :
    (connected : Bool) (es : List Event) (s : Session)
    → IsTracked es s
    → IsTracked es (broadcast_pressed connected s)
unfolding broadcast_pressed reset
broadcast_pressed_ok connected es s t =
    elim (Bool-cases
      (not (allows (s.signed_hex) (s.gate)) || not (bytes_eq (s.context.raw_hex) (s.signed_hex)))) [
        | inl e ↦
            let same : shut_session s ≡ broadcast_pressed connected s = ground arith in
            subst (IsTracked es) same (shut_session-IsTracked es s t)
        | inr e ↦ elim (Bool-cases connected) [
          | inr off ↦
              let same : s ≡ broadcast_pressed connected s = ground arith in
              subst (IsTracked es) same t
          | inl on ↦
              let same : record s { dialog = some (s.context) } ≡ broadcast_pressed connected s =
                ground arith in
              subst (IsTracked es) same (record {
                approved = t.approved;
                button = t.button;
                context = t.context;
                dialog = λ c h.
                    let equal : s.context ≡ c = ground (arith, h) in
                    subst (λ d. (d.raw_hex ≡ []) ⊎ WasSigned d es) equal (t.context);
              })
        ]
      ]

-- A session and what is sent of it.
abbrev IsSent : List Event → Session × List SignedContext → Type 0
IsSent es r = IsTracked es (r.0) × All (IsSendable es) (r.1)

send_confirmed_ok :
    (accepted : Bool) (reply : Result N.Error Bytes) (c : SignedContext) (es : List Event)
    (s : Session)
    → IsTracked es s
    → (c.raw_hex ≡ []) ⊎ WasSigned c es
    → IsSent es (send_confirmed accepted reply c s)
send_confirmed_ok false reply c es s t k = unfold send_confirmed in (t, tt)
send_confirmed_ok true reply c es s t k =
    elim (Bool-cases
      (not (allows (s.signed_hex) (s.gate)) || not (bytes_eq (c.raw_hex) (s.signed_hex)))) [
        | inl e ↦
            let same : (shut_session s, []) ≡ send_confirmed true reply c s =
              unfold send_confirmed reset in ground arith in
            subst (IsSent es) same (shut_session-IsTracked es s t, tt)
        | inr e ↦
            let go = sendable es s c t k (ground arith) (ground arith) in
            elim (Result-cases reply) [
              | inl (txid, er) ↦
                  let same : (shut_session s, c ∷ []) ≡ send_confirmed true reply c s =
                    unfold send_confirmed reset in ground arith in
                  subst (IsSent es) same (shut_session-IsTracked es s t, (go, tt))
              | inr (bad, er) ↦
                  let same : (s, c ∷ []) ≡ send_confirmed true reply c s =
                    unfold send_confirmed reset in ground arith in
                  subst (IsSent es) same (t, (go, tt))
            ]
      ]

dialog_answered_ok :
    (accepted : Bool) (reply : Result N.Error Bytes) (es : List Event) (s : Session)
    → IsTracked es s
    → IsSent es (dialog_answered accepted reply s)
dialog_answered_ok accepted reply es s t = elim (Option-cases (s.dialog)) [
  | inl e ↦
      let same : (s, []) ≡ dialog_answered accepted reply s =
        unfold dialog_answered in ground arith in
      subst (IsSent es) same (t, tt)
  | inr (c, e) ↦
      let s' = record s { dialog = none } in
      let t' : IsTracked es s' = record {
        approved = t.approved;
        button = t.button;
        context = t.context;
        dialog = λ d h. absurd (ground (arith, h));
      } in
      let same : send_confirmed accepted reply c s' ≡ dialog_answered accepted reply s =
        unfold dialog_answered in ground arith in
      subst (IsSent es) same (send_confirmed_ok accepted reply c es s' t' (t.dialog c e))
]

handle_ok :
    (e : Event) (es : List Event)
    → IsTracked es ((after es).0)
    → IsSent (e ∷ es) (handle e ((after es).0))
handle_ok previewed es t =
    unfold handle preview_pressed reset in
    (
      shut_session-IsTracked (previewed ∷ es) ((after es).0) (later previewed es ((after es).0) t),
      tt,
    )
handle_ok (signed c) es t =
    unfold handle sign_confirmed in
    (
      record {
        approved = elim (t.approved) [ inl h ↦ inl h | inr h ↦ inr (inr h) ];
        button = t.button;
        context = inr (inl refl);
        dialog = λ d h. elim (t.dialog d h) [ inl k ↦ inl k | inr k ↦ inr (inr k) ];
      },
      tt,
    )
handle_ok (tested reply) es t =
    let (a, b) = tested_gate_ok reply es ((after es).0.gate) in
    unfold handle test_pressed in
    (
      with_gate (tested reply ∷ es) ((after es).0)
          (tested_gate reply ((after es).0.signed_hex) ((after es).0.gate))
          (later (tested reply) es ((after es).0) t) a b,
      tt,
    )
handle_ok (pressed connected) es t =
    unfold handle in
    (
      broadcast_pressed_ok connected (pressed connected ∷ es) ((after es).0)
          (later (pressed connected) es ((after es).0) t),
      tt,
    )
handle_ok (answered accepted reply) es t =
    unfold handle in
    dialog_answered_ok accepted reply (answered accepted reply ∷ es) ((after es).0)
      (later (answered accepted reply) es ((after es).0) t)

after_ok : (es : List Event) → IsSent es (after es)
unfolding after
after_ok [] = (
  record {
    approved = inl refl;
    button = refl;
    context = inl refl;
    dialog = λ c h. absurd (ground (arith, h));
  },
  tt,
)
after_ok (e ∷ es) =
    let (t, sent) = after_ok es in
    let (t', now) = handle_ok e es t in
    (
      t',
      All-append (IsSendable (e ∷ es)) ((handle e ((after es).0)).1) ((after es).1) now
          (All-imp (λ c (k : IsSendable es c). (inr (k.0), inr (k.1))) ((after es).1) sent),
    )

-- Whatever the buttons of a send are pressed and answered, every transaction that is given to the
-- node was signed earlier, with the destination and the amounts that its dialog showed, and the node
-- permitted exactly these bytes in a test made while they were the signed ones.
pub sent-IsSendable : (es : List Event) → All (IsSendable es) ((after es).1)
sent-IsSendable es = (after_ok es).1

-- After any events, the broadcast button is enabled just when some bytes are approved, and these were
-- permitted by the node.
pub button_follows_gate : (es : List Event) → IsSound es ((after es).0.gate)
button_follows_gate es = let (t, sent) = after_ok es in (t.approved, t.button)

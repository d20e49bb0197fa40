-- ===== src/Gui/Gate.antt =====
-- main.go: the gate in front of a broadcast, and the buttons that use it.
use symbiont_wallet.Base.{
  Bool, true, false, not, ◌&&◌, ◌||◌, Option, none, some, List, [], ◌∷◌, ◌++◌, length, ◌==◌, Result,
  ok, err, if◌then◌else◌,
}
use symbiont_wallet.Base.Bytes.{Bytes, bytes_eq}
use symbiont_wallet.Base.Int64.{ℤ, pos}
use symbiont_wallet.Node.Call as N
use symbiont_wallet.Node.Methods.{MempoolAcceptResult}

-- `broadcastGate`, with whether its button is enabled.
pub record Gate : Type 0 where
  pub approved_hex : Bytes
  pub enabled : Bool

-- `Reset`, which both of these end in.
unfoldable pub reset : Gate → Gate
reset g = record { approved_hex = []; enabled = false }

-- `RecordMempoolResult`.
unfoldable pub record_mempool_result : Bytes → Bool → Gate → Gate
record_mempool_result raw_hex allowed g =
    if allowed && not (length raw_hex == 0)
    then record { approved_hex = raw_hex; enabled = true }
    else reset g

-- `Allows`.
unfoldable pub allows : Bytes → Gate → Bool
allows raw_hex g = not (length raw_hex == 0) && bytes_eq (g.approved_hex) raw_hex

-- `signedBroadcastContext`.
pub record SignedContext : Type 0 where
  pub raw_hex : Bytes
  pub source : Bytes
  pub destination : Bytes
  pub destination_type : Bytes
  pub amount_sats : ℤ
  pub fee_sats : ℤ

-- What the buttons of a send share: `signedTxHex`, `broadcastContext` and `broadcastGate`.
-- A dialog that asks for confirmation holds a copy of the context.
pub record Session : Type 0 where
  pub gate : Gate
  pub signed_hex : Bytes
  pub context : SignedContext
  pub dialog : Option SignedContext

abbrev no_context : SignedContext
no_context = record {
  raw_hex = [];
  source = [];
  destination = [];
  destination_type = [];
  amount_sats = pos 0;
  fee_sats = pos 0;
}

abbrev pub new_session : Session
new_session = record {
  gate = record { approved_hex = []; enabled = false };
  signed_hex = [];
  context = no_context;
  dialog = none;
}

-- What happens to a send: its buttons, with what the node answers.
-- `none` stands for a window without a node.
pub data Event : Type 0 where
  previewed : Event
  signed : SignedContext → Event
  tested : Option (Result N.Error MempoolAcceptResult) → Event
  pressed : Bool → Event
  answered : Bool → Result N.Error Bytes → Event

-- The start of `previewBtn`, and the end of the dialog it opens.
unfoldable pub preview_pressed : Session → Session
preview_pressed s = record s { gate = reset (s.gate) }

unfoldable pub sign_confirmed : SignedContext → Session → Session
sign_confirmed c s = record s { signed_hex = c.raw_hex; context = c }

-- The gate after `testMempoolBtn`.
unfoldable pub tested_gate : Option (Result N.Error MempoolAcceptResult) → Bytes → Gate → Gate
tested_gate none raw_hex g = reset g
tested_gate (some (err e)) raw_hex g = reset g
tested_gate (some (ok r)) raw_hex g =
    if length raw_hex == 0
    then reset g
    else if r.allowed
    then record_mempool_result raw_hex true (reset g)
    else reset g

unfoldable pub test_pressed : Option (Result N.Error MempoolAcceptResult) → Session → Session
unfolding tested_gate
test_pressed reply s = record s { gate = tested_gate reply (s.signed_hex) (s.gate) }

-- `broadcastBtn`: whether its dialog opens, given whether a node is connected.
unfoldable pub broadcast_pressed : Bool → Session → Session
broadcast_pressed connected s =
    if not (allows (s.signed_hex) (s.gate)) || not (bytes_eq (s.context.raw_hex) (s.signed_hex))
    then record s { gate = reset (s.gate) }
    else if not connected
    then s
    else record s { dialog = some (s.context) }

-- The answer to the dialog. The transactions that are given to `SendRawTransaction` come second.
unfoldable pub send_confirmed :
    Bool → Result N.Error Bytes → SignedContext → Session → Session × List SignedContext
send_confirmed false reply c s = (s, [])
send_confirmed true reply c s =
    if not (allows (s.signed_hex) (s.gate)) || not (bytes_eq (c.raw_hex) (s.signed_hex))
    then (record s { gate = reset (s.gate) }, [])
    else (elim reply [ err e ↦ s | ok txid ↦ record s { gate = reset (s.gate) } ], c ∷ [])

-- An answer closes the dialog.
unfoldable pub dialog_answered :
    Bool → Result N.Error Bytes → Session → Session × List SignedContext
dialog_answered accepted reply s = elim (s.dialog) [
  | none ↦ (s, [])
  | some c ↦ send_confirmed accepted reply c (record s { dialog = none })
]

unfoldable pub handle : Event → Session → Session × List SignedContext
handle previewed s = (preview_pressed s, [])
handle (signed c) s = (sign_confirmed c s, [])
handle (tested reply) s = (test_pressed reply s, [])
handle (pressed connected) s = (broadcast_pressed connected s, [])
handle (answered accepted reply) s = dialog_answered accepted reply s

-- The session after some events, the latest of which comes first, and all that was sent.
unfoldable pub after : List Event → Session × List SignedContext
after [] = (new_session, [])
after (e ∷ es) = let (s, sent) = after es in let (s', now) = handle e s in (s', now ++ sent)

-- ===== src/TxBuilder/Reading.antt =====
-- txbuilder.go: how `TxIDFromBIP144` moves over what `SerializeBIP144` writes.
use symbiont_wallet.Base.{
  ℕ, ◌<◌, ◌≡◌, refl, ap, ◌∙◌, subst, List, [], ◌∷◌, ◌++◌, length, All, length-append, drop-append,
  concat_map, ok, ◌>>=◌, arith, Result, append_assoc,
}
use symbiont_wallet.Base.Bytes.{Bytes}
use symbiont_wallet.Base.Int64.{to_u64, word}
use symbiont_wallet.Base.Words.{length-put_le}
use symbiont_wallet.TxBuilder.Types.{TxInput, TxOutput, Witness, Error, sig_len, pk_len}
use symbiont_wallet.TxBuilder.Compact.{write_compact, read_compact, read_compact-write_compact}
use symbiont_wallet.TxBuilder.Serialize.{
  write_le32, write_le64, write_input, write_output, write_witness,
}
use symbiont_wallet.TxBuilder.TxId.{
  skip, skip_each, skip_var, skip_input, skip_output, skip_witness,
}

abbrev pub HasTxId : TxInput → Type 0
HasTxId i = length (i.txid_le) ≡ 32

abbrev pub HasScript : TxOutput → Type 0
HasScript o = length (o.script) < word

abbrev pub HasLengths : Witness → Type 0
HasLengths w = (length (w.sig) ≡ sig_len) × (length (w.pub_key) ≡ pk_len)

pub skip-append : (n : ℕ) (xs rest : Bytes) → length xs ≡ n → skip n (xs ++ rest) ≡ ok rest
unfolding skip
skip-append n xs rest h =
    subst (λ k. skip k (xs ++ rest) ≡ ok rest) h
      (unfold skip in ground (arith, length-append xs rest, drop-append xs rest))

pub skip_var-write :
    (xs rest : Bytes)
    → length xs < word
    → skip_var (write_compact (length xs) ++ (xs ++ rest)) ≡ ok rest
unfolding skip_var
skip_var-write xs rest h =
    ap (λ r. r >>= λ (n, rest). skip n rest) (read_compact-write_compact (length xs) (xs ++ rest) h)
    ∙ skip-append (length xs) xs rest refl

pub length-write_le32 : (n : ℕ) → length (write_le32 n) ≡ 4
unfolding write_le32
length-write_le32 n = length-put_le 4 n

pub length-write_le64 : (n : ℕ) → length (write_le64 n) ≡ 8
unfolding write_le64
length-write_le64 n = length-put_le 8 n

-- The bytes of an input, the way they are skipped.
input_parts :
    (i : TxInput) (rest : Bytes)
    → write_input i ++ rest
      ≡ (i.txid_le ++ write_le32 (i.vout))
        ++ (write_compact 0 ++ ([] ++ (write_le32 (i.n_sequence) ++ rest)))
unfolding write_input
input_parts i rest = simp (append_assoc)

pub skip_input-write_input :
    (i : TxInput) (rest : Bytes) → HasTxId i → skip_input (write_input i ++ rest) ≡ ok rest
unfolding skip_input
skip_input-write_input i rest h =
    ap (λ (l : Bytes). skip 36 l >>= skip_var >>= skip 4) (input_parts i rest)
    ∙ ap (λ r. r >>= skip_var >>= skip 4)
        (skip-append 36 (i.txid_le ++ write_le32 (i.vout))
          (write_compact 0 ++ ([] ++ (write_le32 (i.n_sequence) ++ rest)))
          (omega
            (arith, length-append (i.txid_le) (write_le32 (i.vout)), length-write_le32 (i.vout))))
    ∙ ap (λ r. r >>= skip 4) (skip_var-write [] (write_le32 (i.n_sequence) ++ rest) (omega arith))
    ∙ skip-append 4 (write_le32 (i.n_sequence)) rest (length-write_le32 (i.n_sequence))

output_parts :
    (o : TxOutput) (rest : Bytes)
    → write_output o ++ rest
      ≡ write_le64 (to_u64 (o.amount)) ++ (write_compact (length (o.script)) ++ (o.script ++ rest))
unfolding write_output
output_parts o rest = simp (append_assoc)

pub skip_output-write_output :
    (o : TxOutput) (rest : Bytes) → HasScript o → skip_output (write_output o ++ rest) ≡ ok rest
unfolding skip_output
skip_output-write_output o rest h =
    ap (λ (l : Bytes). skip 8 l >>= skip_var) (output_parts o rest)
    ∙ ap (λ r. r >>= skip_var)
        (skip-append 8 (write_le64 (to_u64 (o.amount)))
          (write_compact (length (o.script)) ++ (o.script ++ rest))
          (length-write_le64 (to_u64 (o.amount))))
    ∙ skip_var-write (o.script) rest h

witness_parts :
    (w : Witness) (rest : Bytes)
    → write_witness w ++ rest
      ≡ write_compact 2
        ++ (write_compact (length (w.sig))
            ++ (w.sig ++ (write_compact (length (w.pub_key)) ++ (w.pub_key ++ rest))))
unfolding write_witness
witness_parts w rest = simp (append_assoc)

two_items :
    (xs ys rest : Bytes)
    → length xs < word
    → length ys < word
    → skip_each skip_var 2
        (write_compact (length xs) ++ (xs ++ (write_compact (length ys) ++ (ys ++ rest))))
      ≡ ok rest
unfolding skip_each
two_items xs ys rest h k =
    ap (λ r. r >>= λ rest'. skip_var rest' >>= λ rest''. ok rest'')
      (skip_var-write xs (write_compact (length ys) ++ (ys ++ rest)) h)
    ∙ ap (λ r. r >>= λ rest''. ok rest'') (skip_var-write ys rest k)

pub skip_witness-write_witness :
    (w : Witness) (rest : Bytes) → HasLengths w → skip_witness (write_witness w ++ rest) ≡ ok rest
unfolding skip_witness
skip_witness-write_witness w rest (hs, hp) =
    ap (λ (l : Bytes). read_compact l >>= λ (items, r). skip_each skip_var items r)
      (witness_parts w rest)
    ∙ ap (λ r. r >>= λ (items, r'). skip_each skip_var items r')
        (read_compact-write_compact 2
          (write_compact (length (w.sig))
            ++ (w.sig ++ (write_compact (length (w.pub_key)) ++ (w.pub_key ++ rest))))
          (omega arith))
    ∙ two_items (w.sig) (w.pub_key) rest (omega arith) (omega arith)

-- A loop over what was written for each element ends behind it.
module _ {A : Type 0} (write : A → Bytes) (step : Bytes → Result Error Bytes) (P : A → Type 0)
    (moves : (a : A) (rest : Bytes) → P a → step (write a ++ rest) ≡ ok rest) where
  pub skip_each-concat_map :
      (xs : List A) (rest : Bytes)
      → All P xs
      → skip_each step (length xs) (concat_map write xs ++ rest) ≡ ok rest
  unfolding skip_each
  skip_each-concat_map [] rest h = refl
  skip_each-concat_map (x ∷ xs) rest (p, h) =
      ap (λ (l : Bytes). step l >>= λ r. skip_each step (length xs) r)
        (append_assoc (write x) (concat_map write xs) rest)
      ∙ ap (λ m. m >>= λ r. skip_each step (length xs) r) (moves x (concat_map write xs ++ rest) p)
      ∙ skip_each-concat_map xs rest h

-- ===== src/Scan/Tests.antt =====
-- A scan of the outputs of two addresses, with amounts that stand for their text.
use symbiont_wallet.Base.{
  ℕ, ◌≡◌, ◌≢◌, refl, sym, ap, ◌∙◌, true, some, List, [], ◌∷◌, All, Result, ok, arith,
}
use mathlib.Core.List.{Permᴰ}
use symbiont_wallet.Base.Bytes.{Bytes, bytes_eq, codes}
use symbiont_wallet.Base.Hex.{hex_encode, hex_digit}
use symbiont_wallet.Base.Int64.{ℤ, pos, add64, mul64, wrap64}
use symbiont_wallet.Base.Keys.{has_key}
use symbiont_wallet.Base.Maps.{Map, lookup, get_or}
use symbiont_wallet.Base.ParseInt.{digits_from, parse_digits, parse_int, split_dot}
use symbiont_wallet.Address.Checksum.{
  xor_gens, polymod_step, polymod_from, polymod, hrp_expand, verify_checksum,
}
use symbiont_wallet.Address.Codec.{
  index_from, charset_rev, is_printable, from_chars, split_last, decode_parts, decode_generic,
}
use symbiont_wallet.Address.Format.{known_hrp, decode_payload, decode, to_hash}
use symbiont_wallet.Address.Regroup.{regroup}
use symbiont_wallet.Amounts.Convert.{parse_part, parse_qoge_decimal}
use symbiont_wallet.Scan.Types.{
  Error, ScanUnspent, ScanResult, FundingStatus, Deposit, float_qoge_to_satoshis,
}
use symbiont_wallet.Scan.Index.{p2qpk_script, script_hex}
use symbiont_wallet.Scan.Owners.{IsOnlyOwner, HasScript}
use symbiont_wallet.Scan.Balances.{aggregate_balances, analyze_funding, analyze_deposits}
use symbiont_wallet.Scan.Totals.{IsPriced, paid_to, aggregate_balances_total}
use symbiont_wallet.Scan.Depths.{IsMined, shallowest, status_of, analyze_funding_total}
use symbiont_wallet.Scan.Groups.{IsNodup}
use symbiont_wallet.Scan.Deposited.{IsCredited, analyze_deposits_total}

abbrev nines : Bytes
nines = codes "bq1zpyysjzgfpyysjzgfpyysjzgfpyysjzgfpyysjzgfpyysjzgfpyyshhrpud"

abbrev eights : Bytes
eights = codes "bq1zpqyqszqgpqyqszqgpqyqszqgpqyqszqgpqyqszqgpqyqszqgpqyqj96m20"

abbrev script_of_nines : Bytes
script_of_nines = codes "52200909090909090909090909090909090909090909090909090909090909090909"

abbrev script_of_eights : Bytes
script_of_eights = codes "52200808080808080808080808080808080808080808080808080808080808080808"

nines_script : script_hex regroup nines ≡ ok script_of_nines
unfolding p2qpk_script to_hash decode decode_payload known_hrp decode_generic split_last
    decode_parts is_printable from_chars charset_rev index_from verify_checksum hrp_expand polymod
    polymod_from polymod_step xor_gens bytes_eq hex_encode hex_digit
nines_script = refl

eights_script : script_hex regroup eights ≡ ok script_of_eights
unfolding p2qpk_script to_hash decode decode_payload known_hrp decode_generic split_last
    decode_parts is_printable from_chars charset_rev index_from verify_checksum hrp_expand polymod
    polymod_from polymod_step xor_gens bytes_eq hex_encode hex_digit
eights_script = refl

abbrev same_text : Bytes → Bytes
same_text text = text

abbrev unspent : Bytes → ℕ → Bytes → Bytes → ℕ → ScanUnspent Bytes
unspent txid vout script amount height = record {
  txid = txid;
  vout = vout;
  script_pub_key = script;
  desc = [];
  amount = amount;
  height = pos height;
}

abbrev scan : ScanResult Bytes
scan = record {
  success = true;
  txouts = pos 4;
  height = pos 500;
  best_block = [];
  unspents =
      unspent (codes "t1") 0 script_of_nines (codes "1.50000000") 100
      ∷ unspent (codes "t1") 1 script_of_eights (codes "2.00000000") 100
      ∷ unspent (codes "t2") 0 script_of_nines (codes "0.25000000") 480
      ∷ unspent (codes "t1") 2 script_of_nines (codes "0.00000001") 100
      ∷ [];
  total_amount = codes "3.75000001";
}

abbrev both : List Bytes
both = nines ∷ eights ∷ []

both_listed : has_key nines both ≡ true
unfolding has_key bytes_eq
both_listed = refl

abbrev sixth_byte : Result Error Bytes → ℕ
sixth_byte (ok (a ∷ b ∷ c ∷ d ∷ e ∷ f ∷ rest)) = f
sixth_byte _ = 0

scripts_differ : ◌≢◌ {A = Result Error Bytes} (ok script_of_eights) (ok script_of_nines)
scripts_differ e = omega (arith, ap sixth_byte e)

only_nines : IsOnlyOwner regroup nines script_of_nines both
only_nines = (λ e. refl, (λ e. absurd (scripts_differ (sym eights_script ∙ e)), tt))

both_valid : All (HasScript regroup) both
both_valid = ((script_of_nines, nines_script), ((script_of_eights, eights_script), tt))

priced : All (IsPriced same_text) (scan.unspents)
unfolding float_qoge_to_satoshis parse_qoge_decimal split_dot parse_part parse_int parse_digits
    digits_from add64 mul64 wrap64
priced = (refl, (refl, (refl, (refl, tt))))

total_of_nines : paid_to same_text script_of_nines (scan.unspents) ≡ 175000001
unfolding float_qoge_to_satoshis parse_qoge_decimal split_dot parse_part parse_int parse_digits
    digits_from add64 mul64 wrap64 bytes_eq
total_of_nines = refl

aggregate_balances_total_example :
    (balances : Map ℤ) × (aggregate_balances same_text regroup scan both ≡ ok balances)
    × (lookup nines balances ≡ some (pos (paid_to same_text script_of_nines (scan.unspents))))
aggregate_balances_total_example =
    aggregate_balances_total same_text regroup scan both nines script_of_nines both_listed
      nines_script only_nines both_valid priced (omega (arith, total_of_nines))

mined : All (IsMined same_text 500) (scan.unspents)
mined =
    ((refl, omega arith), ((refl, omega arith), ((refl, omega arith), ((refl, omega arith), tt))))

-- Of the three outputs the one at height 480 is the shallowest.
shallowest_of_nines : shallowest same_text 500 script_of_nines (scan.unspents) ≡ 21
unfolding float_qoge_to_satoshis parse_qoge_decimal split_dot parse_part parse_int parse_digits
    digits_from add64 mul64 wrap64 bytes_eq
shallowest_of_nines = refl

analyze_funding_total_example :
    (statuses : Map FundingStatus) × (analyze_funding same_text regroup scan both ≡ ok statuses)
    × (lookup nines statuses
        ≡ some (
            status_of
              (paid_to same_text script_of_nines (scan.unspents))
              (shallowest same_text 500 script_of_nines (scan.unspents))))
analyze_funding_total_example =
    analyze_funding_total same_text 500 regroup scan both nines script_of_nines refl (omega arith)
      both_listed nines_script only_nines both_valid priced mined (omega (arith, total_of_nines))

-- A walk that turns the first two entries round.
abbrev turned : Map ℤ → Map ℤ
turned [] = []
turned (e ∷ []) = e ∷ []
turned (e ∷ e' ∷ m) = e' ∷ e ∷ m

turned-perm : (m : Map ℤ) → Permᴰ (turned m) m
turned-perm [] = Permᴰ.nil
turned-perm (e ∷ []) = Permᴰ.cons refl Permᴰ.nil
turned-perm (e ∷ e' ∷ m) = Permᴰ.swap refl refl

both-IsNodup : IsNodup both
unfolding has_key bytes_eq
both-IsNodup = (refl, (refl, tt))

analyze_deposits_total_example :
    (found : Map (List Deposit)) × (analyze_deposits turned same_text regroup scan both ≡ ok found)
    × IsCredited same_text regroup scan both turned script_of_nines (get_or [] (lookup nines found))
analyze_deposits_total_example =
    analyze_deposits_total same_text regroup scan both turned nines script_of_nines turned-perm
      both-IsNodup both_listed nines_script only_nines both_valid priced
      (refl, (refl, (refl, (refl, tt)))) (omega (arith, total_of_nines))

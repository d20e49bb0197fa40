-- ===== src/Scan/Index.antt =====
-- balance.go: the script of an address, and the tables by which a scan is read.
use symbiont_wallet.Base.{List, [], ◌∷◌, Result, ok, err, ◌>>=◌}
use symbiont_wallet.Base.Bytes.{Bytes}
use symbiont_wallet.Base.Hex.{hex_encode}
use symbiont_wallet.Base.Maps.{Map, insert}
use symbiont_wallet.Address.Format.{Convert, to_hash}
use symbiont_wallet.Scan.Types.{Error, address_error}

module _ (convert_bits : Convert) where
  -- `P2QPKScript`: OP_2, the push and the 32 bytes that `ToHash` returns.
  unfoldable pub p2qpk_script : Bytes → Result Error Bytes
  p2qpk_script addr = elim (to_hash convert_bits addr) [
    | err e ↦ err (address_error e)
    | ok hash ↦ ok (0x52 ∷ 0x20 ∷ hash)
  ]

  -- The script as a scan spells it.
  abbrev pub script_hex : Bytes → Result Error Bytes
  script_hex addr = p2qpk_script addr >>= λ script. ok (hex_encode script)

  module _ {V : Type 0} (start : V) where
    -- The first loop of the three readers: which address has a script, and the start of each
    -- address's entry.
    unfoldable pub index_addrs : List Bytes → Map Bytes × Map V → Result Error (Map Bytes × Map V)
    index_addrs [] tables = ok tables
    index_addrs (addr ∷ addrs) (scripts, entries) = script_hex addr >>= λ script.
        index_addrs addrs (insert script addr scripts, insert addr start entries)

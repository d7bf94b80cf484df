-- ===== src/Database/CollateralFlags.antt =====
-- settlement/database/pending-collateral-flags.ts: the queue of collateral flags.
use settlement_engine.Prelude.{
  Codes, lower_code, codes_eq, not, ◌&&◌, List, [], ◌∷◌, ◌++◌, map, any, keep, drop, if◌then◌else◌,
}
use settlement_engine.Exec.{pure}
use settlement_engine.Database.Tables.{Db, FlagRow}
use settlement_engine.Database.Connection.{Pg, query}
use settlement_engine.Contract.Encode.{CollateralMap, distinct_from}

-- `hexToBytea` of an address given by its code points
abbrev pub hex_to_bytea : Codes → Codes
hex_to_bytea a = drop 2 (map lower_code a)

-- `0x${bytes.toString('hex')}`
abbrev pub to_hex : Codes → Codes
to_hex bytes = b'0' ∷ b'x' ∷ bytes

-- `out.get(key)?.push(asset)`, or a new entry
unfoldable pub push_asset : Codes → Codes → CollateralMap → CollateralMap
push_asset key asset [] = (key, asset ∷ []) ∷ []
push_asset key asset ((k, assets) ∷ rest) =
    if codes_eq k key
    then (k, assets ++ asset ∷ []) ∷ rest
    else (k, assets) ∷ push_asset key asset rest

unfoldable pub group_rows : CollateralMap → List FlagRow → CollateralMap
unfolding push_asset
group_rows out [] = out
group_rows out (row ∷ rest) =
    group_rows (push_asset (to_hex row.user_address) (to_hex row.asset) out) rest

unfoldable pub read_for_borrowers : List Codes → Pg CollateralMap
unfolding group_rows distinct_from
read_for_borrowers [] = pure []
read_for_borrowers (b ∷ rest) =
    let params = map hex_to_bytea (distinct_from [] (map (map lower_code) (b ∷ rest))) in
    query (λ d. (
      group_rows [] (keep (λ r. any (codes_eq r.user_address) params) d.pending_collateral_flags),
      d,
    ))

-- `DELETE ... WHERE user_address = $1 AND asset = $2`
abbrev pub without_flag : Codes → Codes → Db → Db
without_flag user asset d = record d {
  pending_collateral_flags =
      keep
        (λ r.
          not
            (codes_eq r.user_address (hex_to_bytea user) && codes_eq r.asset (hex_to_bytea asset)))
        d.pending_collateral_flags;
}

unfoldable pub clear_for_event : Codes → Codes → Pg (Unit {0})
clear_for_event user asset = query (λ d. (tt, without_flag user asset d))

-- ===== src/Store/Serializer/RoundTrip/LastSuccess.antt =====
-- The last accepted snapshot: what `encodeLastSuccess` writes, `decodeLastSuccess` reads back.
use iov_vehicle_cgw_fota.Prelude.{ℕ, ◌≡◌, ◌<◌, ◌==◌, true, refl, sym, ap, List, length, arith}
use iov_vehicle_cgw_fota.Prelude.Int.{ℤ}
use iov_vehicle_cgw_fota.Prelude.Result.{ok}
use iov_vehicle_cgw_fota.Store.FotaState.{LastSuccessState}
use iov_vehicle_cgw_fota.Store.FotaState.Names.{collection_status_lem}
use iov_vehicle_cgw_fota.Store.Serializer.Json.{JsonLib}
use iov_vehicle_cgw_fota.Store.Serializer.Values.{validate_persisted_fingerprints}
use iov_vehicle_cgw_fota.Store.Serializer.LastSuccess.{
  last_success_json, encode_last_success, decode_last_success,
}
use iov_vehicle_cgw_fota.Store.Serializer.RoundTrip.{decode_enveloped, read_fingerprints}
use iov_vehicle_cgw_fota.Store.Serializer.RoundTrip.Snapshot.{read_snapshot}

-- A record of the current version whose number fits into its type and is the number of its snapshot,
-- and with fingerprints that the validation accepts.
pub record IsStorable (s : LastSuccessState) : Type 0 where
  pub version : s.schema_version ≡ 2
  pub seq_fits : s.snapshot_seq < 18446744073709551616
  pub seq_agrees : s.snapshot.snapshot_seq ≡ s.snapshot_seq
  pub fingerprints_valid : validate_persisted_fingerprints s.fingerprints "last_success" ≡ ok tt

-- A storable record that was encoded into less than 4 GiB is decoded as it was, the whole snapshot with
-- its ECUs included, if the JSON library behaves as documented.
pub decode-encode_last_success :
    (lib : JsonLib) (now : ℤ) (s : LastSuccessState) (bytes : List ℕ)
    → IsStorable s
    → encode_last_success lib now s ≡ ok bytes
    → length bytes < 4294967296
    → decode_last_success lib bytes ≡ ok s
unfolding encode_last_success decode_last_success last_success_json
decode-encode_last_success lib now s bytes v he hl =
    let fits : s.snapshot.snapshot_seq < 18446744073709551616 = rw v.seq_agrees v.seq_fits in
    let (sj, wrote, read) = read_snapshot lib s.snapshot fits in
    let same : (s.snapshot.snapshot_seq == s.snapshot_seq) ≡ true = ground (arith, v.seq_agrees) in
    decode_enveloped lib "last_success" 2 _ _ now _ bytes s (omega arith)
      (rw (wrote, v.version) at he) hl (rw lib.find_value-object refl)
      (simp
        (
          lib.find_value-object,
          lib.member-object,
          lib.get_string-string,
          lib.get_i64-signed,
          lib.get_u64-unsigned s.snapshot_seq v.seq_fits,
          read_fingerprints lib,
          collection_status_lem,
          v.fingerprints_valid,
          read,
          same,
        )
        (ap (λ n. ok (record s { schema_version = n })) (sym v.version)))

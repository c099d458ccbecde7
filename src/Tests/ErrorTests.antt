-- ===== src/Tests/ErrorTests.antt =====
-- The mapping of the framework's errors at concrete codes.
use iov_vehicle_cgw_fota.Prelude.{◌≡◌, refl, arith, ℕ, List, [], ◌∷◌, ◌++◌}
use iov_vehicle_cgw_fota.Someip.ErrorMapper.{
  CallResult, MappedError, ErrorCode, normalize_code, map_diag_call_error, map_tbox_call_error,
}
use iov_vehicle_cgw_fota.Someip.ErrorMapper.Numbers.{FourDigits, decimal, framework_number}

-- "CGW-FW-303"
abbrev send_failure : List ℕ
send_failure = 67 ∷ 71 ∷ 87 ∷ 45 ∷ 70 ∷ 87 ∷ 45 ∷ 51 ∷ 48 ∷ 51 ∷ []

abbrev failed_call : CallResult
failed_call = record { code = send_failure; message = "" }

-- "0303"
send_failure_number : normalize_code send_failure ≡ 48 ∷ 51 ∷ 48 ∷ 51 ∷ []
unfolding normalize_code
send_failure_number = refl

diag_send_failure : MappedError.code (map_diag_call_error failed_call) ≡ ErrorCode.cgw_fota_1006
unfolding map_diag_call_error normalize_code
diag_send_failure = refl

tbox_send_failure : MappedError.code (map_tbox_call_error failed_call) ≡ ErrorCode.cgw_fota_1004
unfolding map_tbox_call_error normalize_code
tbox_send_failure = refl

-- "SOMEIP/0303 "
number_example :
    FourDigits (normalize_code send_failure)
    × (decimal 0 (normalize_code send_failure) ≡ decimal 0 (51 ∷ 48 ∷ 51 ∷ []))
    × (normalize_code
          ((83 ∷ 79 ∷ 77 ∷ 69 ∷ 73 ∷ 80 ∷ 47 ∷ []) ++ (normalize_code send_failure ++ (32 ∷ [])))
        ≡ normalize_code send_failure)
number_example =
    framework_number [] (51 ∷ 48 ∷ 51 ∷ []) [] (83 ∷ 79 ∷ 77 ∷ 69 ∷ 73 ∷ 80 ∷ 47 ∷ []) (32 ∷ []) tt
      (refl, (refl, (refl, tt))) (ground arith) tt (ground arith) (ground arith) refl

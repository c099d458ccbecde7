-- ===== src/Someip/ErrorMapper.antt =====
-- The business errors (include/error_codes.h) for the framework's errors
-- (src/someip/error_mapper.cpp). A code is its bytes.
pub mod Numbers
use iov_vehicle_cgw_fota.Prelude.{
  ℕ, ◌-◌, String, List, [], ◌∷◌, ◌++◌, Option, none, some, Bool, true, false, leb, ◌==◌, ◌&&◌, ◌||◌,
  length, if◌then◌else◌,
}

pub data ErrorCode : Type 0 where
  success : ErrorCode
  cgw_diag_1001 cgw_diag_1002 cgw_diag_1003 cgw_diag_1004 cgw_diag_1005 cgw_diag_1006 : ErrorCode
  cgw_fota_1003 cgw_fota_1004 cgw_fota_1005 cgw_fota_1006 : ErrorCode
  config_error : ErrorCode
  someip_connection_error someip_timeout_error someip_protocol_error : ErrorCode

unfoldable pub error_code_to_string : ErrorCode → String
error_code_to_string success = "Success"
error_code_to_string cgw_diag_1001 = "ECU 不可达"
error_code_to_string cgw_diag_1002 = "诊断超时"
error_code_to_string cgw_diag_1003 = "NRC 响应"
error_code_to_string cgw_diag_1004 = "DID 缺失"
error_code_to_string cgw_diag_1005 = "解析失败"
error_code_to_string cgw_diag_1006 = "未知错误"
error_code_to_string cgw_fota_1003 = "清单组装失败"
error_code_to_string cgw_fota_1004 = "车内发送失败"
error_code_to_string cgw_fota_1005 = "TBOX 不可达"
error_code_to_string cgw_fota_1006 = "上报超时"
error_code_to_string config_error = "配置错误"
error_code_to_string someip_connection_error = "SOME/IP 连接错误"
error_code_to_string someip_timeout_error = "SOME/IP 超时错误"
error_code_to_string someip_protocol_error = "SOME/IP 协议错误"

-- The members of the framework's `CallResult` that the mapping reads.
pub record CallResult : Type 0 where
  pub code : List ℕ
  pub message : String

pub record MappedError : Type 0 where
  pub code : ErrorCode
  pub cause : List ℕ
  pub message : String

-- `c >= '0' && c <= '9'`
abbrev pub is_digit : ℕ → Bool
is_digit c = leb 48 c && leb c 57

-- `code.substr(pos + prefix.size())`, when the prefix stands at the start
unfoldable pub after_prefix : List ℕ → List ℕ → Option (List ℕ)
after_prefix [] cs = some cs
after_prefix (p ∷ ps) [] = none
after_prefix (p ∷ ps) (c ∷ cs) = let rest = after_prefix ps cs in if p == c then rest else none

-- `code.find(prefix)` and what stands behind its first occurrence
unfoldable pub after_found : List ℕ → List ℕ → Option (List ℕ)
unfolding after_prefix
after_found prefix [] = after_prefix prefix []
after_found prefix (c ∷ cs) =
    let rest = after_found prefix cs in
    elim (after_prefix prefix (c ∷ cs)) [ none ↦ rest | some found ↦ some found ]

unfoldable pub leading_digits : List ℕ → List ℕ
leading_digits [] = []
leading_digits (c ∷ cs) = let rest = leading_digits cs in if is_digit c then c ∷ rest else []

unfoldable pub zeros : ℕ → List ℕ
zeros ℕ.zero = []
zeros (ℕ.suc n) = 48 ∷ zeros n

-- `while (num.size() < 4) num = "0" + num`
unfoldable pub padded : List ℕ → List ℕ
unfolding zeros
padded num = zeros (4 - length num) ++ num

-- The loop for the first run of four digits or more, or the last one of the code.
unfoldable pub scan : List ℕ → List ℕ → List ℕ
scan num [] = num
scan num (c ∷ cs) =
    let longer = scan (num ++ c ∷ []) cs in
    let cleared = scan [] cs in
    if is_digit c then longer else if leb 4 (length num) then num else cleared

-- `while (num.size() < 4 && !num.empty()) num = "0" + num`
abbrev pub padded_unless_empty : List ℕ → List ℕ
padded_unless_empty [] = []
padded_unless_empty (c ∷ cs) = padded (c ∷ cs)

-- `num.size() == 4 ? num : code`
abbrev pub four_or : List ℕ → List ℕ → List ℕ
four_or num other = if length num == 4 then num else other

unfoldable pub normalize_code : List ℕ → List ℕ
unfolding after_found leading_digits padded scan
normalize_code code =
    let fallback = four_or (padded_unless_empty (scan [] code)) code in
    elim (after_found (67 ∷ 71 ∷ 87 ∷ 45 ∷ 70 ∷ 87 ∷ 45 ∷ []) code) [
      | none ↦ fallback
      | some rest ↦ four_or (padded (leading_digits rest)) fallback
    ]

unfoldable pub framework_error_number : List ℕ → List ℕ
framework_error_number code = normalize_code code

abbrev pub bytes_eq : List ℕ → List ℕ → Bool
bytes_eq [] [] = true
bytes_eq [] (b ∷ bs) = false
bytes_eq (a ∷ as') [] = false
bytes_eq (a ∷ as') (b ∷ bs) = a == b && bytes_eq as' bs

-- `num == "03de"`
abbrev pub is_03 : ℕ → ℕ → List ℕ → Bool
is_03 d e num = bytes_eq num (48 ∷ 51 ∷ d ∷ e ∷ [])

unfoldable pub map_diag_call_error : CallResult → MappedError
map_diag_call_error result =
    let num = normalize_code result.code in
    let code =
      if is_03 48 52 num
      then cgw_fota_1006
      else if is_03 48 53 num
      then cgw_fota_1006
      else if is_03 48 54 num
      then cgw_diag_1005
      else if is_03 48 51 num
      then cgw_fota_1006
      else if is_03 48 55 num || is_03 48 57 num || is_03 49 48 num
      then cgw_diag_1006
      else cgw_diag_1006 in
    record { code = code; cause = result.code; message = result.message }

unfoldable pub map_tbox_call_error : CallResult → MappedError
map_tbox_call_error result =
    let num = normalize_code result.code in
    let code =
      if is_03 48 52 num
      then cgw_fota_1005
      else if is_03 48 54 num
      then cgw_fota_1003
      else if is_03 48 53 num
      then cgw_fota_1006
      else if is_03 48 51 num
      then cgw_fota_1004
      else if is_03 48 55 num || is_03 48 57 num || is_03 49 48 num
      then cgw_fota_1004
      else cgw_fota_1004 in
    record { code = code; cause = result.code; message = result.message }

unfoldable pub is_startup_blocking : List ℕ → Bool
is_startup_blocking code = is_03 48 49 (normalize_code code) || is_03 48 50 (normalize_code code)

unfoldable pub is_resource_limit : List ℕ → Bool
is_resource_limit code = is_03 48 57 (normalize_code code)
